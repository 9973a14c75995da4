-- ===== src/Meeting/Bot/Requests.antt =====
-- How many requests for a meeting's bot are sent in all.
use colab.Prelude.{
  ℕ, ◌+◌, ◌*◌, ◌≤◌, String, Bool, true, false, not, ◌&&◌, Bool-cases, Option-cases, rows-cases, ◌≡◌,
  refl, inl, inr, Option, none, some, List, [], ◌∷◌, ◌==◌, find, find-holds, length, select,
  if◌then◌else◌, arith,
}
use colab.Prelude.Uuid.{Uuid}
use colab.Meeting.Recall.{Attempt, create_bot, length-create_bot}
use colab.Meeting.Rows.{Meeting, Post, MeetingDb, find_meeting, is_over}
use colab.Meeting.Schedule.{
  MeetingCreateRequest, MeetingPatchRequest, CreateCall, PatchCall, valid_duration, conflicts,
  end_of, new_meeting, insert_meeting, create_free, create_checked, create_meeting, patch_open,
  patch_meeting, valid_patch, has_change, has_event,
}
use colab.Meeting.Bot.{
  Delivery, posted, dispatch_open, dispatch_recall_bot, RecallPayload, RecallCode, joining_call,
  in_call_recording, call_ended, done, fatal, unknown, webhook_for, process_recall_webhook,
  give_bot_consent, revoke_bot_consent, start_bot, is_requested, has_bot,
}
use colab.Meeting.Bot.Ops.{Op, create, patch, consent, revoke, start, dispatch, webhook, apply, run}
use colab.Meeting.Bot.Frames.{post_count, all_count}

insert-posts : (m : Meeting) (db : MeetingDb) → (insert_meeting m db).1.posts ≡ db.posts
insert-posts m db = elim (Option-cases (find_meeting m.id db.meetings)) [
  | inr (old, found) ↦ rw (found, insert_meeting) refl
  | inl new ↦ rw (new, insert_meeting) refl
]

create-posts :
    (collab profile : Uuid) (body : MeetingCreateRequest) (call : CreateCall) (db : MeetingDb)
    → (create_meeting collab profile body call db).1.posts ≡ db.posts
unfolding create_meeting
create-posts collab profile body call db = elim (Bool-cases (valid_duration body.duration_min)) [
  | inr bad ↦ rw bad refl
  | inl fine ↦ rw fine (
      checked (
        find (conflicts collab body.scheduled_at (end_of body.scheduled_at body.duration_min))
          db.meetings))
]
  where
    free :
        (o : Option (String × String))
        → (create_free collab profile body call db o).1.posts ≡ db.posts
    free none = refl
    free (some event) = insert-posts (new_meeting collab profile body call event) db

    checked :
        (o : Option Meeting) → (create_checked collab profile body call db o).1.posts ≡ db.posts
    checked (some m) = refl
    checked none = free call.calendar

patch_open-posts :
    (profile : Uuid) (body : MeetingPatchRequest) (call : PatchCall) (db : MeetingDb) (m : Meeting)
    → (patch_open profile body call db m).1.posts ≡ db.posts
patch_open-posts profile body call db m = elim (Bool-cases body.cancel) [
  | inl off ↦ rw (off, patch_open) refl
  | inr on ↦ elim (Bool-cases (has_change body)) [
    | inr nothing ↦ rw (on, nothing, patch_open) refl
    | inl change ↦ elim (Bool-cases (has_event m.gcal_event_id && not call.calendar_ok)) [
      | inl failed_call ↦ rw (on, change, failed_call, patch_open) refl
      | inr fine ↦ rw (on, change, fine, patch_open) refl
    ]
  ]
]

patch-posts :
    (id profile : Uuid) (body : MeetingPatchRequest) (call : PatchCall) (db : MeetingDb)
    → (patch_meeting id profile body call db).1.posts ≡ db.posts
unfolding patch_meeting
patch-posts id profile body call db = elim (Bool-cases (valid_patch body.duration_min)) [
  | inr bad ↦ rw bad refl
  | inl fine ↦ elim (Option-cases (find_meeting id db.meetings)) [
    | inl missing ↦ rw (fine, missing) refl
    | inr (m, found) ↦ elim (Bool-cases (is_over m.status)) [
      | inl over ↦ rw (fine, found, over) refl
      | inr live ↦ rw (fine, found, live) (patch_open-posts profile body call db m)
    ]
  ]
]

consent-posts :
    (id profile : Uuid) (now : ℕ) (db : MeetingDb)
    → (give_bot_consent id profile now db).1.posts ≡ db.posts
unfolding give_bot_consent
consent-posts id profile now db = elim (Option-cases (find_meeting id db.meetings)) [
  | inl missing ↦ rw (missing, give_bot_consent) refl
  | inr (m, found) ↦ rw (found, give_bot_consent) (ground arith)
]

revoke-posts :
    (id profile : Uuid) (now : ℕ) (db : MeetingDb)
    → (revoke_bot_consent id profile now db).1.posts ≡ db.posts
unfolding revoke_bot_consent
revoke-posts id profile now db = elim (Option-cases (find_meeting id db.meetings)) [
  | inl missing ↦ rw (missing, revoke_bot_consent) refl
  | inr (m, found) ↦ rw (found, revoke_bot_consent) (ground arith)
]

start-posts : (id : Uuid) (db : MeetingDb) → (start_bot id db).1.posts ≡ db.posts
unfolding start_bot
start-posts id db = elim (Option-cases (find_meeting id db.meetings)) [
  | inl missing ↦ rw (missing, start_bot) refl
  | inr (m, found) ↦ rw (found, start_bot) (ground arith)
]

webhook_for-posts :
    (p : RecallPayload) (code : RecallCode) (db : MeetingDb) (m : Meeting)
    → (webhook_for p code db m).posts ≡ db.posts
webhook_for-posts p joining_call db m = refl
webhook_for-posts p in_call_recording db m = refl
webhook_for-posts p call_ended db m = refl
webhook_for-posts p done db m = refl
webhook_for-posts p fatal db m = refl
webhook_for-posts p unknown db m = refl

webhook-posts :
    (bot : String) (p : RecallPayload) (db : MeetingDb)
    → (apply (webhook bot p) db).posts ≡ db.posts
unfolding apply process_recall_webhook
webhook-posts bot p db = elim (rows-cases (select (has_bot bot) db.meetings)) [
  | inl none_found ↦ rw (none_found, process_recall_webhook, apply) refl
  | inr (inl (m, one)) ↦ rw (one, process_recall_webhook, apply) (webhook_for-posts p p.code db m)
  | inr (inr (m, n, ms, more)) ↦ rw (more, process_recall_webhook, apply) refl
]

-- The requests for a meeting's bot whose task did not come to its commit.
abbrev lost_count : Uuid → List Post → ℕ
lost_count id posts = length (select (λ p. p.meeting_id == id && not p.committed) posts)

-- The deliveries for a meeting whose worker died before its commit.
abbrev lost_by : Uuid → Op → ℕ
lost_by id (dispatch mid d) = if mid == id && not d.commits then 1 else 0
lost_by id _ = 0

abbrev pub lost_deliveries : Uuid → List Op → ℕ
lost_deliveries id [] = 0
lost_deliveries id (op ∷ ops) = lost_by id op + lost_deliveries id ops

pub all-split :
    (id : Uuid) (posts : List Post) → all_count id posts ≡ post_count id posts + lost_count id posts
all-split id [] = refl
all-split id (p ∷ posts) = ground (arith, all-split id posts)

module _ (id mid : Uuid) (posts : List Post) where
  lost-committed :
      (sent : List Attempt) → lost_count id (posted mid true sent posts) ≡ lost_count id posts
  lost-committed [] = refl
  lost-committed (a ∷ sent) = ground (arith, lost-committed sent)

  lost-other :
      (commits : Bool) (sent : List Attempt)
      → mid == id ≡ false
      → lost_count id (posted mid commits sent posts) ≡ lost_count id posts
  lost-other commits [] h = refl
  lost-other commits (a ∷ sent) h = rw h (lost-other commits sent h)

  lost-more :
      (commits : Bool) (sent : List Attempt)
      → lost_count id (posted mid commits sent posts) ≤ lost_count id posts + length sent
  lost-more commits [] = omega arith
  lost-more commits (a ∷ sent) = ground (arith, lost-more commits sent)

same : (id : Uuid) {a b : List Post} → a ≡ b → lost_count id a ≤ lost_count id b + 3 * 0
same id e = rw e (omega arith)

unmoved : {a b : ℕ} (n : ℕ) → a ≡ b → a ≤ b + n
unmoved n e = omega (arith, e)

same_id : (a b : Uuid) → a == b ≡ true → a ≡ b
same_id a b h = ground (arith, h)

open-lost :
    (id mid : Uuid) (d : Delivery) (db : MeetingDb) (m : Meeting)
    → m.id ≡ mid
    → lost_count id (dispatch_open d db m).posts
      ≤ lost_count id db.posts + 3 * (if mid == id && not d.commits then 1 else 0)
open-lost id mid d db m e =
    let sent = (create_bot d.recall).0 in
    elim (Bool-cases (mid == id)) [
      | inr other ↦ unmoved _ (lost-other id m.id db.posts d.commits sent (rw e other))
      | inl mine ↦ elim (Bool-cases d.commits) [
        | inl commits ↦
            rw (commits, dispatch_open) (unmoved _ (lost-committed id m.id db.posts sent))
        | inr lost ↦
            let more = lost-more id m.id db.posts false sent in
            let few = length-create_bot d.recall in
            rw (mine, lost, dispatch_open) (omega (arith, more, few))
      ]
    ]

dispatch-lost :
    (id mid : Uuid) (d : Delivery) (db : MeetingDb)
    → lost_count id (dispatch_recall_bot mid d db).posts
      ≤ lost_count id db.posts + 3 * (if mid == id && not d.commits then 1 else 0)
unfolding dispatch_recall_bot
dispatch-lost id mid d db = elim (Option-cases (find_meeting mid db.meetings)) [
  | inl missing ↦ rw (missing, dispatch_recall_bot) (unmoved _ refl)
  | inr (m, found) ↦ elim (Bool-cases (is_requested m.bot_status)) [
    | inr idle ↦ rw (found, idle, dispatch_recall_bot) (unmoved _ refl)
    | inl asked ↦
        rw (found, asked, dispatch_recall_bot)
          (open-lost id mid d db m
            (same_id m.id mid (find-holds (λ x. x.id == mid) db.meetings found)))
  ]
]

apply-lost :
    (id : Uuid) (op : Op) (db : MeetingDb)
    → lost_count id (apply op db).posts ≤ lost_count id db.posts + 3 * lost_by id op
unfolding apply
apply-lost id (create collab profile body call) db =
    same id (create-posts collab profile body call db)
apply-lost id (patch mid profile body call) db = same id (patch-posts mid profile body call db)
apply-lost id (consent mid profile now) db = same id (consent-posts mid profile now db)
apply-lost id (revoke mid profile now) db = same id (revoke-posts mid profile now db)
apply-lost id (start mid) db = same id (start-posts mid db)
apply-lost id (dispatch mid d) db = dispatch-lost id mid d db
apply-lost id (webhook bot p) db = same id (webhook-posts bot p db)

pub run-lost :
    (id : Uuid) (ops : List Op) (db : MeetingDb)
    → lost_count id (run ops db).posts ≤ lost_count id db.posts + 3 * lost_deliveries id ops
unfolding run
run-lost id [] db = omega arith
run-lost id (op ∷ ops) db = omega (arith, apply-lost id op db, run-lost id ops (apply op db))
