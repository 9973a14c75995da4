-- ===== src/Invite/Invites.antt =====
-- services/invite-svc/app/routers/invites.py: what the two sides of an invite do to it.
pub mod Rows
pub mod Sending
pub mod Expiry
pub mod Lists
pub mod Ops
pub mod Changes
pub mod Steps
pub mod Stale
pub mod Insert
pub mod Settled
pub mod StateMachine
use colab.Prelude.{
  ℕ, Bool, true, false, ◌&&◌, Option, none, some, List, [], ◌∷◌, ◌==◌, Scalar, no_row, one_row,
  multiple_rows, scalar_one_or_none, find, select, update_where, if◌then◌else◌,
}
use colab.Prelude.Uuid.{Uuid}
use colab.Invite.Invites.Rows.{
  InviteStatus, pending, accepted, rejected, cancelled, CollabInvite, InviteDb, Event,
  invite_accepted, invite_rejected, invite_cancelled, match_created, is_pending, is_accepted,
  HttpError, not_found, forbidden, conflict, server_error, Answer, ok, raises,
}

abbrev pub find_invite : Uuid → List CollabInvite → Option CollabInvite
find_invite id = find (λ i. i.id == id)

-- The row that a request may answer: `side` is the profile that may, and the status must be pending.
abbrev pub open_invite : (CollabInvite → Uuid) → Uuid → Option CollabInvite → Answer CollabInvite
open_invite side caller none = raises not_found
open_invite side caller (some i) =
    if side i == caller
    then (if is_pending i.status then ok i else raises (conflict i.status))
    else raises forbidden

abbrev pub recipient : CollabInvite → Uuid
recipient i = i.to_profile_id

abbrev pub sender : CollabInvite → Uuid
sender i = i.from_profile_id

abbrev pub responded : InviteStatus → ℕ → CollabInvite → CollabInvite
responded s now i = record i { status = s; responded_at = some now }

abbrev pub respond : InviteStatus → Uuid → ℕ → List CollabInvite → List CollabInvite
respond s id now = update_where (λ i. i.id == id) (responded s now)

-- The accepted invites of the other direction.
abbrev pub is_mirror : CollabInvite → CollabInvite → Bool
is_mirror i m =
    m.from_profile_id == i.to_profile_id
    && m.to_profile_id == i.from_profile_id
    && is_accepted m.status

-- The end of `accept_invite`: the rollback where the query raises, and the events after the commit.
abbrev pub accepted_with :
    CollabInvite → ℕ → InviteDb → Scalar CollabInvite → Answer Bool × InviteDb
accepted_with i now db multiple_rows = (raises server_error, db)
accepted_with i now db no_row = (
  ok false,
  record db {
    invites = respond accepted i.id now db.invites;
    published = invite_accepted i.id i.from_profile_id i.to_profile_id ∷ db.published;
  },
)
accepted_with i now db (one_row m) = (
  ok true,
  record db {
    invites = respond accepted i.id now db.invites;
    published =
        match_created i.from_profile_id i.to_profile_id i.id m.id
        ∷ invite_accepted i.id i.from_profile_id i.to_profile_id
        ∷ db.published;
  },
)

abbrev pub accept_open : ℕ → InviteDb → Answer CollabInvite → Answer Bool × InviteDb
accept_open now db (raises e) = (raises e, db)
accept_open now db (ok i) =
    accepted_with i now db
      (scalar_one_or_none (select (is_mirror i) (respond accepted i.id now db.invites)))

-- Whether the two sides matched.
unfoldable pub accept_invite : Uuid → Uuid → ℕ → InviteDb → Answer Bool × InviteDb
accept_invite id caller now db =
    accept_open now db (open_invite recipient caller (find_invite id db.invites))

abbrev pub answer_open :
    InviteStatus
    → (Uuid → Uuid → Uuid → Event)
    → ℕ
    → InviteDb
    → Answer CollabInvite
    → Answer Unit × InviteDb
answer_open s event now db (raises e) = (raises e, db)
answer_open s event now db (ok i) = (
  ok tt,
  record db {
    invites = respond s i.id now db.invites;
    published = event i.id i.from_profile_id i.to_profile_id ∷ db.published;
  },
)

unfoldable pub reject_invite : Uuid → Uuid → ℕ → InviteDb → Answer Unit × InviteDb
reject_invite id caller now db =
    answer_open rejected invite_rejected now db
      (open_invite recipient caller (find_invite id db.invites))

unfoldable pub cancel_invite : Uuid → Uuid → ℕ → InviteDb → Answer Unit × InviteDb
cancel_invite id caller now db =
    answer_open cancelled invite_cancelled now db
      (open_invite sender caller (find_invite id db.invites))
