-- ===== src/Meeting/Bot/Consent.antt =====
-- No request for a bot without two consents, and a bound on the requests for one meeting.
use colab.Prelude.{
  ℕ, ◌≤◌, length, true, false, Bool-cases, Option-cases, ◌≡◌, ◌≢◌, refl, sym, ◌∙◌, subst, inl, inr,
  none, some, List, [], ◌∷◌, ◌==◌, ==_refl, find-update_where,
}
use colab.Prelude.Uuid.{Uuid}
use colab.Meeting.Rows.{
  BotStatus, requested, Meeting, MeetingDb, meeting_cancelled, find_meeting, update_meeting,
  is_over,
}
use colab.Meeting.Schedule.{MeetingPatchRequest, PatchCall, patch_meeting, cancel_at}
use colab.Meeting.Recall.{create_bot, create_bot_sends}
use colab.Meeting.Bot.{Delivery, posted, active_count, dispatch_recall_bot, is_requested}
use colab.Meeting.Bot.Ops.{Op, apply, run}
use colab.Meeting.Bot.Frames.{post_count, all_count, IsGoodStatus, IsGood, chosen}
use colab.Meeting.Bot.Writes.{is_asked, apply-IsGood}

abbrev pub no_meetings : MeetingDb
no_meetings = record { meetings = []; consents = []; artifacts = []; emitted = []; posts = [] }

run-IsGood : (ops : List Op) (db : MeetingDb) → IsGood db → IsGood (run ops db)
unfolding run
run-IsGood [] db good = good
run-IsGood (op ∷ ops) db good = run-IsGood ops (apply op db) (apply-IsGood op db good)

no_meetings-IsGood : IsGood no_meetings
no_meetings-IsGood id = refl

asked_consents : (s : BotStatus) (a b : ℕ) → is_requested s ≡ true → IsGoodStatus s a b → 2 ≤ a
asked_consents s a b r h = (subst (λ k. IsGoodStatus k a b) (is_asked s r) h).0

dispatched :
    (db : MeetingDb) (id : Uuid) (d : Delivery)
    → IsGood db
    → all_count id (dispatch_recall_bot id d db).posts ≢ all_count id db.posts
    → 2 ≤ active_count id db.consents
unfolding dispatch_recall_bot
dispatched db id d good changed = elim (Option-cases (find_meeting id db.meetings)) [
  | inl missing ↦ absurd (changed (rw (missing, dispatch_recall_bot) refl))
  | inr (m, found) ↦ elim (Bool-cases (is_requested m.bot_status)) [
    | inr idle ↦ absurd (changed (rw (found, idle, dispatch_recall_bot) refl))
    | inl asked ↦
        asked_consents m.bot_status (active_count id db.consents) (post_count id db.posts) asked
          (rw found at (good id))
  ]
]

-- After every sequence of requests, deliveries of the bot task and webhooks from empty tables: where a delivery of
-- the bot task sends any request for a bot of a meeting, whether it comes to its commit or not, the table holds at
-- least two active consents to that meeting's bot.
pub dispatch-consented :
    (ops : List Op) (id : Uuid) (d : Delivery)
    → all_count id (dispatch_recall_bot id d (run ops no_meetings)).posts
      ≢ all_count id (run ops no_meetings).posts
    → 2 ≤ active_count id (run ops no_meetings).consents
dispatch-consented ops id d changed =
    dispatched (run ops no_meetings) id d (run-IsGood ops no_meetings no_meetings-IsGood) changed

abbrev cancelled_db : Uuid → ℕ → MeetingDb → Meeting → MeetingDb
cancelled_db profile now db m = record (update_meeting m.id (cancel_at now) db) {
  emitted = meeting_cancelled m.id m.collab_id profile ∷ db.emitted;
}

cancelled-row :
    (id profile : Uuid) (now : ℕ) (db : MeetingDb) {m : Meeting}
    → find_meeting id db.meetings ≡ some m
    → find_meeting id (cancelled_db profile now db m).meetings ≡ some (cancel_at now m)
cancelled-row id profile now db {m} found =
    find-update_where (λ x. x.id == id) (λ x. x.id == m.id) (cancel_at now) db.meetings {x = m}
      (λ x. refl) found
    ∙ chosen (cancel_at now m) m (m.id == m.id) (==_refl m.id)

cancelled-dispatch :
    (id : Uuid) (d : Delivery) (db : MeetingDb) {m : Meeting}
    → find_meeting id db.meetings ≡ some m
    → m.bot_status ≡ requested
    → (dispatch_recall_bot id d db).posts ≡ posted m.id d.commits (create_bot d.recall).0 db.posts
unfolding dispatch_recall_bot
cancelled-dispatch id d db found asked = rw (found, asked, dispatch_recall_bot) refl

-- Cancelling a meeting does not call its bot off: where the bot of a meeting that is still open is requested and the
-- meeting is cancelled with no new duration, a delivery of the bot task sends every request of `create_bot` for the
-- cancelled meeting, and at least one.
pub dispatch-cancelled :
    (db : MeetingDb) (id profile : Uuid) (body : MeetingPatchRequest) (call : PatchCall)
    (d : Delivery) {m : Meeting}
    → find_meeting id db.meetings ≡ some m
    → is_over m.status ≡ false
    → m.bot_status ≡ requested
    → body.cancel ≡ true
    → body.duration_min ≡ none
    → (find_meeting id (patch_meeting id profile body call db).1.meetings
        ≡ some (cancel_at call.now m))
      × ((dispatch_recall_bot id d (patch_meeting id profile body call db).1).posts
          ≡ posted m.id d.commits (create_bot d.recall).0 db.posts)
      × (1 ≤ length (create_bot d.recall).0)
unfolding patch_meeting
dispatch-cancelled db id profile body call d {m} found open_ asked off same_length =
    let step : (patch_meeting id profile body call db).1 ≡ cancelled_db profile call.now db m =
      rw (same_length, found, open_, off) refl in
    let row = cancelled-row id profile call.now db found in
    (
      subst (λ after. find_meeting id after.meetings ≡ some (cancel_at call.now m)) (sym step) row,
      subst
          (λ after.
            (dispatch_recall_bot id d after).posts
            ≡ posted m.id d.commits (create_bot d.recall).0 db.posts)
          (sym step) (cancelled-dispatch id d (cancelled_db profile call.now db m) row asked),
      create_bot_sends d.recall,
    )
