-- ===== src/Invite/Invites/Sending.antt =====
-- `send_invite` of services/invite-svc/app/routers/invites.py with `scan_synopsis` of
-- app/services/moderation.py, the response cache of app/services/quota.py, and blocks of app/routers/blocks.py.
use colab.Prelude.{
  ℕ, ◌+◌, ◌/◌, String, Bool, true, false, not, Option, none, some, List, [], ◌∷◌, ◌==◌, str_eq, leb,
  find, select, if◌then◌else◌,
}
use colab.Prelude.Text.{Text}
use colab.Prelude.Time.{days}
use colab.Prelude.Uuid.{Uuid}
use colab.Invite.Quota.{SortedSets, UserKeys, Entitlement, check_and_increment_quota}
use colab.Invite.Invites.Rows.{
  InviteStatus, pending, CollabInvite, Block, BlockReason, InviteDb, invite_sent, block_created,
  block_removed, bad_request, not_found, blocked, quota_exceeded, server_error, synopsis_flagged,
  Answer, ok, raises, insert_invite, has_key, is_block, is_blocked,
}

pub record SendResponse : Type 0 where
  pub invite_id : Uuid
  pub status : InviteStatus
  pub quota_remaining : ℕ
  pub archive_at : ℕ

-- What moderation-svc answers about a text: nothing in time, or a score with a reason and a case.
pub data ScanAnswer : Type 0 where
  no_answer : ScanAnswer
  scored : ℕ → String → Option Uuid → ScanAnswer

-- `scan_synopsis`, with `synopsis_flag_threshold`: the case, or SynopsisFlagged.
unfoldable pub scan_synopsis : ℕ → ScanAnswer → Answer (Option Uuid)
scan_synopsis threshold no_answer = ok none
scan_synopsis threshold (scored score reason case_id) =
    if leb threshold score then raises (synopsis_flagged reason) else ok case_id

-- The settings of app/config.py; `dedup_key` is `make_dedup_key`, which hashes its arguments.
pub record InviteSettings : Type 0 where
  pub free_invite_quota_per_week : ℕ
  pub synopsis_flag_threshold : ℕ
  pub invite_ttl_days : ℕ
  pub dedup_key : Uuid → Uuid → Text → String

pub record SendRequest : Type 0 where
  pub from_profile_id : Uuid
  pub to_profile_id : Uuid
  pub synopsis : Text
  pub idempotency_key : Option String

-- What is new in a call: the time, the invite's id and the answers of the other services.
pub record Call : Type 0 where
  pub now : ℕ
  pub fresh : Uuid
  pub entitlement : Entitlement
  pub scan : ScanAnswer

-- A response under `idem:invite:{key}`.
pub record Cached : Type 0 where
  pub key : String
  pub response : SendResponse
  pub expires_at : ℕ

-- `check_idempotency`
abbrev pub check_idempotency : ℕ → String → List Cached → Option SendResponse
check_idempotency now k [] = none
check_idempotency now k (c ∷ cs) =
    if str_eq c.key k
    then (if leb c.expires_at now then none else some c.response)
    else check_idempotency now k cs

-- `set_idempotency`, for 86400 seconds: the last entry of a key counts.
abbrev pub set_idempotency : ℕ → String → SendResponse → List Cached → List Cached
set_idempotency now k r cs =
    record { key = k; response = r; expires_at = now + 86_400_000_000 } ∷ cs

-- `x_idempotency_key or make_dedup_key(…)`
abbrev pub idem_key : InviteSettings → SendRequest → String
idem_key settings body = elim body.idempotency_key [
  | none ↦ settings.dedup_key body.from_profile_id body.to_profile_id body.synopsis
  | some k ↦
      if str_eq k ""
      then settings.dedup_key body.from_profile_id body.to_profile_id body.synopsis
      else k
]

-- `idem_key if x_idempotency_key else None`
abbrev stored_key : Option String → Option String
stored_key none = none
stored_key (some k) = if str_eq k "" then none else some k

abbrev pub new_invite : InviteSettings → SendRequest → Call → Option Uuid → CollabInvite
new_invite settings body call case_id = record {
  id = call.fresh;
  from_profile_id = body.from_profile_id;
  to_profile_id = body.to_profile_id;
  synopsis = body.synopsis;
  status = pending;
  mod_case_id = case_id;
  created_at = call.now;
  responded_at = none;
  archive_at = call.now + days settings.invite_ttl_days;
  idempotency_key = stored_key body.idempotency_key;
}

module _ {Z : Type 0} (redis : SortedSets Z) where
  pub record InviteState : Type 0 where
    pub db : InviteDb
    pub quotas : Uuid → UserKeys redis
    pub cache : List Cached

  -- The insert, with the row of the same key where it conflicts.
  abbrev pub inserted :
      InviteSettings
      → SendRequest
      → Call
      → ℕ
      → Option Uuid
      → InviteState
      → Option (List CollabInvite)
      → Answer SendResponse × InviteState
  inserted settings body call left case_id st (some invites) =
      let i = new_invite settings body call case_id in
      let r : SendResponse = record {
        invite_id = i.id;
        status = pending;
        quota_remaining = left;
        archive_at = i.archive_at;
      } in
      (
        ok r,
        record st {
          db = record st.db {
            invites = invites;
            published = invite_sent i.id i.from_profile_id i.to_profile_id ∷ st.db.published;
          };
          cache = set_idempotency call.now (idem_key settings body) r st.cache;
        },
      )
  inserted settings body call left case_id st none =
      elim (find (has_key (some (idem_key settings body))) st.db.invites) [
        | none ↦ (raises server_error, st)
        | some i ↦ (
          ok (record {
            invite_id = i.id;
            status = i.status;
            quota_remaining = left;
            archive_at = i.archive_at;
          }),
          st,
        )
      ]

  abbrev pub scanned :
      InviteSettings
      → SendRequest
      → Call
      → ℕ
      → InviteState
      → Answer (Option Uuid)
      → Answer SendResponse × InviteState
  scanned settings body call left st (raises e) = (raises e, st)
  scanned settings body call left st (ok case_id) =
      inserted settings body call left case_id st
        (insert_invite (new_invite settings body call case_id) st.db.invites)

  abbrev pub with_quota : Uuid → UserKeys redis → InviteState → InviteState
  with_quota u keys st = record st { quotas = λ v. if v == u then keys else st.quotas v }

  abbrev pub counted :
      InviteSettings
      → SendRequest
      → Call
      → InviteState
      → (Bool × ℕ) × UserKeys redis
      → Answer SendResponse × InviteState
  counted settings body call st ((false, left), keys) =
      (raises quota_exceeded, with_quota body.from_profile_id keys st)
  counted settings body call st ((true, left), keys) =
      scanned settings body call left (with_quota body.from_profile_id keys st)
        (scan_synopsis settings.synopsis_flag_threshold call.scan)

  abbrev pub unless_cached :
      InviteSettings
      → SendRequest
      → Call
      → InviteState
      → Option SendResponse
      → Answer SendResponse × InviteState
  unless_cached settings body call st (some r) = (ok r, st)
  unless_cached settings body call st none = counted settings body call st (
      check_and_increment_quota redis (call.now / 1000) settings.free_invite_quota_per_week
        call.entitlement call.fresh (st.quotas body.from_profile_id))

  unfoldable pub send_invite :
      InviteSettings → SendRequest → Call → InviteState → Answer SendResponse × InviteState
  unfolding scan_synopsis insert_invite is_blocked
  send_invite settings body call st =
      if body.from_profile_id == body.to_profile_id
      then (raises bad_request, st)
      else if is_blocked body.from_profile_id body.to_profile_id st.db.blocks
      then (raises blocked, st)
      else unless_cached settings body call st
          (check_idempotency call.now (idem_key settings body) st.cache)

-- `create_block`: the row that the answer shows.
unfoldable pub create_block :
    Uuid → Uuid → Option BlockReason → ℕ → InviteDb → Answer Block × InviteDb
create_block caller profile reason now db =
    if caller == profile
    then (raises bad_request, db)
    else elim (find (is_block caller profile) db.blocks) [
      | some b ↦ (ok b, db)
      | none ↦
          let b : Block = record {
            blocker_id = caller;
            blocked_id = profile;
            created_at = now;
            reason = reason;
          } in
          (
            ok b,
            record db {
              blocks = b ∷ db.blocks;
              published = block_created caller profile ∷ db.published;
            },
          )
    ]

unfoldable pub remove_block : Uuid → Uuid → InviteDb → Answer Unit × InviteDb
remove_block caller profile db = elim (find (is_block caller profile) db.blocks) [
  | none ↦ (raises not_found, db)
  | some b ↦ (
    ok tt,
    record db {
      blocks = select (λ x. not (is_block caller profile x)) db.blocks;
      published = block_removed caller profile ∷ db.published;
    },
  )
]
