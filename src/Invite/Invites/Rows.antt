-- ===== src/Invite/Invites/Rows.antt =====
-- The tables of services/invite-svc/app/models/invite.py, less the score that nothing of the service writes,
-- the answers of the endpoints and the events that they publish.
use colab.Prelude.{
  ℕ, String, Bool, true, false, ◌&&◌, ◌||◌, Option, none, some, List, ◌∷◌, ◌==◌, ltb, any, str_eq,
  length, if◌then◌else◌,
}
use colab.Prelude.Text.{Text}
use colab.Prelude.Uuid.{Uuid}

pub data InviteStatus : Type 0 where
  pending accepted rejected expired cancelled : InviteStatus

pub record CollabInvite : Type 0 where
  pub id : Uuid
  pub from_profile_id : Uuid
  pub to_profile_id : Uuid
  pub synopsis : Text
  pub status : InviteStatus
  pub mod_case_id : Option Uuid
  pub created_at : ℕ
  pub responded_at : Option ℕ
  pub archive_at : ℕ
  pub idempotency_key : Option String

pub data BlockReason : Type 0 where
  harassment spam inappropriate_content other : BlockReason

pub record Block : Type 0 where
  pub blocker_id : Uuid
  pub blocked_id : Uuid
  pub created_at : ℕ
  pub reason : Option BlockReason

-- The events handed to the broker.
pub data Event : Type 0 where
  invite_sent invite_accepted invite_rejected invite_cancelled invite_expired :
      Uuid → Uuid → Uuid → Event
  match_created : Uuid → Uuid → Uuid → Uuid → Event
  block_created block_removed : Uuid → Uuid → Event

-- The newest row and the last event stand first.
pub record InviteDb : Type 0 where
  pub invites : List CollabInvite
  pub blocks : List Block
  pub published : List Event

abbrev pub is_pending : InviteStatus → Bool
is_pending pending = true
is_pending _ = false

abbrev pub is_accepted : InviteStatus → Bool
is_accepted accepted = true
is_accepted _ = false

-- What an endpoint raises: an HTTPException, or an error that ends in 500.
pub data HttpError : Type 0 where
  bad_request not_found forbidden blocked quota_exceeded server_error : HttpError
  synopsis_flagged : String → HttpError
  conflict : InviteStatus → HttpError

pub data Answer (A : Type 0) : Type 0 where
  ok : A → Answer A
  raises : HttpError → Answer A

abbrev pub has_key : Option String → CollabInvite → Bool
has_key none i = false
has_key (some k) i = elim i.idempotency_key [ none ↦ false | some k' ↦ str_eq k' k ]

-- The primary key, the unique idempotency key and the check constraints.
unfoldable pub insert_invite : CollabInvite → List CollabInvite → Option (List CollabInvite)
insert_invite new invites =
    if any (λ i. i.id == new.id || has_key new.idempotency_key i) invites
      || ltb 250 (length new.synopsis)
      || new.from_profile_id == new.to_profile_id
    then none
    else some (new ∷ invites)

abbrev pub is_block : Uuid → Uuid → Block → Bool
is_block blocker target b = b.blocker_id == blocker && b.blocked_id == target

-- `_is_blocked`
unfoldable pub is_blocked : Uuid → Uuid → List Block → Bool
is_blocked a b blocks = any (λ x. is_block a b x || is_block b a x) blocks
