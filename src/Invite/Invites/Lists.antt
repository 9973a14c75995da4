-- ===== src/Invite/Invites/Lists.antt =====
-- `get_inbox` and `get_sent` of services/invite-svc/app/routers/invites.py, without the profile cards
-- that another service adds to the items.
pub mod Pages
use colab.Prelude.{
  ℕ, String, Bool, true, false, not, ◌&&◌, Option, none, some, List, ◌==◌, str_eq, length, select,
  if◌then◌else◌,
}
use colab.Prelude.Uuid.{Uuid}
use colab.Invite.Paging.{Cursors, page}
use colab.Invite.Invites.Rows.{
  InviteStatus, pending, accepted, rejected, expired, cancelled, CollabInvite, InviteDb, is_pending,
  is_accepted, Answer, ok, raises, bad_request, is_blocked,
}

abbrev pub invite_key : CollabInvite → ℕ × Uuid
invite_key i = (i.created_at, i.id)

abbrev pub is_status : InviteStatus → InviteStatus → Bool
is_status pending pending = true
is_status accepted accepted = true
is_status rejected rejected = true
is_status expired expired = true
is_status cancelled cancelled = true
is_status _ _ = false

-- `valid_statuses`
abbrev pub status_named : String → Option InviteStatus
status_named s =
    if str_eq s "pending"
    then some pending
    else if str_eq s "accepted"
    then some accepted
    else if str_eq s "rejected"
    then some rejected
    else if str_eq s "expired"
    then some expired
    else if str_eq s "cancelled"
    then some cancelled
    else none

abbrev pub has_status : Option InviteStatus → CollabInvite → Bool
has_status none i = true
has_status (some s) i = is_status s i.status

abbrev named : String → Answer (Option InviteStatus)
named s = elim (status_named s) [ none ↦ raises bad_request | some t ↦ ok (some t) ]

-- The query parameter: a status, all of them, or the default where it is missing or empty.
abbrev pub status_filter : Option InviteStatus → Option String → Answer (Option InviteStatus)
status_filter default none = ok default
status_filter default (some s) =
    if str_eq s "" then ok default else if str_eq s "all" then ok none else named s

pub record Listing (C : Type 0) : Type 0 where
  pub items : List CollabInvite
  pub next_cursor : Option C
  pub total_pending : ℕ

abbrev pub in_inbox : Uuid → InviteDb → CollabInvite → Bool
in_inbox caller db i =
    i.to_profile_id == caller && not (is_blocked caller i.from_profile_id db.blocks)

abbrev pub in_sent : Uuid → InviteDb → CollabInvite → Bool
in_sent caller db i =
    i.from_profile_id == caller && not (is_blocked caller i.to_profile_id db.blocks)

-- The rows that a listing goes through.
abbrev pub listed :
    (CollabInvite → Bool) → Option InviteStatus → List CollabInvite → List CollabInvite
listed visible status invites = select (λ i. visible i && has_status status i) invites

module _ {C : Type 0} (cs : Cursors C) where
  abbrev with_filter :
      (CollabInvite → Bool)
      → ℕ
      → Option C
      → ℕ
      → InviteDb
      → Answer (Option InviteStatus)
      → Answer (Listing C)
  with_filter visible size cursor total db (raises e) = raises e
  with_filter visible size cursor total db (ok status) =
      let (items, next) = page invite_key cs size cursor (listed visible status db.invites) in
      ok (record { items = items; next_cursor = next; total_pending = total })

  unfoldable pub get_inbox : Uuid → Option String → Option C → ℕ → InviteDb → Answer (Listing C)
  unfolding is_blocked
  get_inbox caller status cursor size db =
      let total = length (select (λ i. in_inbox caller db i && is_pending i.status) db.invites) in
      with_filter (in_inbox caller db) size cursor total db (status_filter (some pending) status)

  unfoldable pub get_sent : Uuid → Option String → Option C → ℕ → InviteDb → Answer (Listing C)
  unfolding is_blocked
  get_sent caller status cursor size db =
      let total =
        length (select (λ i. i.from_profile_id == caller && is_pending i.status) db.invites) in
      with_filter (in_sent caller db) size cursor total db (status_filter none status)
