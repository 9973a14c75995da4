-- ===== src/Invite/Tests.antt =====
-- Runs of the quota on a sorted set that is a list of scores and members, and runs of the invites.
use colab.Prelude.{
  Bool, false, some, ◌+◌, All, ℕ, ◌≤◌, not, none, List, [], ◌∷◌, ◌≡◌, refl, ltb, select, length,
  ◌==◌, arith,
}
use colab.Prelude.Uuid.{Uuid}
use colab.Invite.Quota.{
  SortedSets, UserKeys, limited, get_invite_limit, check_and_increment_quota, quota_lua,
}
use colab.Invite.Paging.{Cursors, follow, order_desc}
use colab.Invite.Paging.Order.{HasUniqueIds}
use colab.Invite.Invites.{find_invite, accept_invite, reject_invite}
use colab.Invite.Invites.Rows.{
  InviteStatus, pending, accepted, CollabInvite, InviteDb, server_error, raises,
}
use colab.Invite.Invites.Lists.{
  invite_key, get_inbox, get_sent, in_inbox, in_sent, listed as visible_rows,
}
use colab.Invite.Invites.Lists.Pages.{taken, listings_complete}
use colab.Invite.Invites.Expiry.{is_stale, run_expire_all}
use colab.Invite.Invites.Expiry.Ends.{pending_count, run_expire_all-ends}
use colab.Invite.Invites.Sending.{InviteSettings, InviteState}
use colab.Invite.Invites.Ops.{Op, accept, reject, apply, run}
use colab.Invite.Invites.Settled.{IsSound, run-IsSound, find_invite-run, accept_invite-two_mirrors}
use colab.Invite.Invites.StateMachine.{StatusStep, status_of, apply-StatusStep}
use colab.Invite.Quota.Window.{Send, send, send_all, nothing_sent, recent}
use colab.Invite.Quota.Limit.{IsSequence, at_most_limit, allowed-iff-room}

abbrev listed : SortedSets (List (ℕ × Uuid))
listed = record {
  no_members = [];
  zremrangebyscore = λ cutoff z. select (λ e. ltb cutoff e.0) z;
  zcard = λ z. length z;
  zadd = λ score m z. (score, m) ∷ select (λ e. not (e.1 == m)) z;
  members = λ z. z;
  members-no_members = refl;
  members-zremrangebyscore = λ cutoff z. refl;
  zcard-members = λ z. refl;
  members-zadd = λ score m z. refl;
}

-- Two invites a week: the third is refused, and the fourth comes when the first is seven days old.
abbrev sends : List Send
sends =
    record { at = 10; limit = 2; invite = 1 }
    ∷ record { at = 20; limit = 2; invite = 2 }
    ∷ record { at = 30; limit = 2; invite = 3 }
    ∷ record { at = 604_800_010; limit = 2; invite = 4 }
    ∷ []

sent : (send_all listed sends (nothing_sent listed)).log ≡ (604_800_010, 4) ∷ (20, 2) ∷ (10, 1) ∷ []
unfolding send_all send quota_lua
sent = refl

sends-IsSequence : IsSequence 2 10 sends
sends-IsSequence = ground arith

at_most_limit_example :
    length (recent 604_800_010 (send_all listed sends (nothing_sent listed)).log) ≤ 2
at_most_limit_example = at_most_limit listed 2 10 604_800_010 sends sends-IsSequence (omega arith)

allowed-iff-room_example :
    let st = send_all listed sends (nothing_sent listed) in
    let keys : UserKeys listed = record { limit_cache = none; quota = st.key } in
    (check_and_increment_quota listed 604_800_015 5 (limited 2) 5 keys).0.0
    ≡ ltb (length (recent 604_800_015 st.log)) (get_invite_limit 604_800_015 5 (limited 2) none).0
allowed-iff-room_example =
    allowed-iff-room listed 2 10 604_800_015 5 (limited 2) none 5 sends sends-IsSequence
      (omega arith)

-- Two invites of Ada (1) to Ben (2): the first is pending, the second was accepted.
abbrev invite : Uuid → Uuid → Uuid → InviteStatus → ℕ → CollabInvite
invite id from to status at = record {
  id = id;
  from_profile_id = from;
  to_profile_id = to;
  synopsis = [];
  status = status;
  mod_case_id = none;
  created_at = at;
  responded_at = none;
  archive_at = at + 1000;
  idempotency_key = none;
}

abbrev table : List CollabInvite
table = invite 12 1 2 accepted 20 ∷ invite 11 1 2 pending 10 ∷ []

abbrev db_of : List CollabInvite → InviteDb
db_of invites = record { invites = invites; blocks = []; published = [] }

abbrev unlocked : Uuid → Bool
unlocked id = false

run_expire_all-ends_example :
    (n : ℕ) × (t : ℕ) × (after : InviteDb) × run_expire_all unlocked
        (λ k. 5000 + k)
        2
        0
        0
        (db_of table)
      ≡ some ((n, t), after)
    × All (λ i. is_stale unlocked t i ≡ false) after.invites
    × n + pending_count after.invites ≤ pending_count table
run_expire_all-ends_example =
    run_expire_all-ends unlocked (λ k. 5000 + k) 2 (db_of table) (omega arith)

-- The text of a cursor is what it encodes.
abbrev plain : Cursors (ℕ × Uuid)
plain = record { encode = λ k. k; decode = λ c. some c; decode-encode = λ k. refl }

table-HasUniqueIds : HasUniqueIds invite_key table
table-HasUniqueIds = (((λ e. absurd (omega (arith, e))), tt), (tt, tt))

listings_complete_example :
    follow invite_key (λ c. taken (get_inbox plain 2 (some "all") c 1 (db_of table))) 2 none
      ≡ order_desc invite_key (visible_rows (in_inbox 2 (db_of table)) none table)
    × follow invite_key (λ c. taken (get_sent plain 2 (some "all") c 1 (db_of table))) 2 none
      ≡ order_desc invite_key (visible_rows (in_sent 2 (db_of table)) none table)
listings_complete_example =
    listings_complete plain 2 (some "all") 1 2 (db_of table) {received = none} {sent = none}
      table-HasUniqueIds (omega arith) (omega arith) refl refl

abbrev settings : InviteSettings
settings = record {
  free_invite_quota_per_week = 5;
  synopsis_flag_threshold = 70;
  invite_ttl_days = 30;
  dedup_key = λ a b t. "dedup";
}

abbrev state_of : List CollabInvite → InviteState listed
state_of invites = record {
  db = db_of invites;
  quotas = λ u. record { limit_cache = none; quota = (nothing_sent listed).key };
  cache = [];
}

-- Ben accepts the pending invite.
abbrev back : List Op
back = accept 11 2 100 ∷ []

state-IsSound :
    (invites : List CollabInvite)
    → HasUniqueIds invite_key invites
    → IsSound listed settings (db_of invites)
state-IsSound invites u = (u, tt)

run-IsSound_example : IsSound listed settings (run listed settings back (state_of table)).db
run-IsSound_example =
    run-IsSound listed settings back (state_of table) (state-IsSound table table-HasUniqueIds)

find_invite-run_example :
    find_invite 12 (run listed settings back (state_of table)).db.invites
    ≡ some (invite 12 1 2 accepted 20)
find_invite-run_example =
    find_invite-run listed settings 12 back (state_of table) {i = invite 12 1 2 accepted 20}
      (state-IsSound table table-HasUniqueIds) refl refl

apply-StatusStep_example :
    let before = run listed settings [] (state_of table) in
    StatusStep
      (status_of 11 before.db.invites)
      (status_of 11 (apply listed settings (accept 11 2 100) before).db.invites)
apply-StatusStep_example =
    apply-StatusStep listed settings 11 [] (accept 11 2 100) (state_of table)
      (state-IsSound table table-HasUniqueIds)

-- The status goes from pending to accepted.
answered : status_of 11 (run listed settings back (state_of table)).db.invites ≡ some accepted
unfolding run apply accept_invite
answered = refl

-- Two accepted invites from 1 to 2, and one from 2 to 1 that is pending.
abbrev thrice : List CollabInvite
thrice = invite 13 2 1 pending 30 ∷ invite 12 1 2 accepted 20 ∷ invite 11 1 2 accepted 10 ∷ []

thrice-HasUniqueIds : HasUniqueIds invite_key thrice
thrice-HasUniqueIds = (
  ((λ e. absurd (omega (arith, e))), ((λ e. absurd (omega (arith, e))), tt)),
  (((λ e. absurd (omega (arith, e))), tt), (tt, tt)),
)

-- Someone else rejects it, in vain.
abbrev stranger : List Op
stranger = reject 13 9 150 ∷ []

still :
    find_invite 13 (run listed settings stranger (state_of thrice)).db.invites
    ≡ some (invite 13 2 1 pending 30)
unfolding run apply reject_invite
still = refl

accept_invite-two_mirrors_example :
    accept_invite 13 1 200 (run listed settings stranger (state_of thrice)).db
    ≡ (raises server_error, (run listed settings stranger (state_of thrice)).db)
accept_invite-two_mirrors_example =
    accept_invite-two_mirrors listed settings 13 200 stranger (state_of thrice)
      {i = invite 13 2 1 pending 30} (state-IsSound thrice thrice-HasUniqueIds) (omega arith) still
      refl
