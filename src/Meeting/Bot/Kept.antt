-- ===== src/Meeting/Bot/Kept.antt =====
-- Creating and changing a meeting keeps the bot's invariant.
use colab.Prelude.{
  ℕ, ◌≤◌, String, true, false, not, ◌&&◌, Bool-cases, Option-cases, ◌≡◌, refl, subst, inl, inr,
  Option, none, some, ◌==◌, find, arith,
}
use colab.Prelude.Uuid.{Uuid}
use colab.Meeting.Rows.{
  BotStatus, no_bot, requested, joining, joined, left, failed, Meeting, MeetingDb, find_meeting,
  update_meeting, is_over,
}
use colab.Meeting.Schedule.{
  MeetingCreateRequest, MeetingPatchRequest, CreateCall, PatchCall, valid_duration, conflicts,
  end_of, new_meeting, insert_meeting, create_free, create_checked, create_meeting, patch_open,
  patch_meeting, cancel_at, rescheduled, valid_patch, has_change, has_event,
}
use colab.Meeting.Bot.{active_count, is_undispatched, is_none, is_requested}
use colab.Meeting.Bot.Frames.{
  post_count, IsGoodStatus, IsGoodMeeting, IsGood, update-IsGood, mapped-IsGood,
}

-- A write that leaves the consents and the requests alone.
pub set-IsGood :
    (db : MeetingDb) (m : Meeting) (f : Meeting → Meeting)
    → ((x : Meeting) → (f x).id ≡ x.id)
    → find_meeting m.id db.meetings ≡ some m
    → IsGoodStatus (f m).bot_status (active_count m.id db.consents) (post_count m.id db.posts)
    → IsGood db
    → IsGood (update_meeting m.id f db)
set-IsGood db m f keep found now_good good =
    update-IsGood db m f db.consents db.posts keep found (λ id _. refl) (λ id _. refl) now_good good

pub at_found :
    (db : MeetingDb) (m : Meeting)
    → find_meeting m.id db.meetings ≡ some m
    → IsGood db
    → IsGoodStatus m.bot_status (active_count m.id db.consents) (post_count m.id db.posts)
at_found db m found good = rw found at (good m.id)

-- What the status says of the requests and the consents.
pub none_zero : (s : BotStatus) (a b : ℕ) → is_undispatched s ≡ true → IsGoodStatus s a b → b ≡ 0
none_zero no_bot a b u h = h
none_zero requested a b u (two, h) = h
none_zero joining a b u h = cc
none_zero joined a b u h = cc
none_zero left a b u h = cc
none_zero failed a b u h = cc

pub none_undispatched : (s : BotStatus) → is_none s ≡ true → is_undispatched s ≡ true
none_undispatched s h = ground arith

pub requested_undispatched : (s : BotStatus) → is_requested s ≡ true → is_undispatched s ≡ true
requested_undispatched s h = ground arith

-- More consents are as good, and where no bot is requested any number is.
more_good : (s : BotStatus) (a a' b : ℕ) → a ≤ a' → IsGoodStatus s a b → IsGoodStatus s a' b
more_good no_bot a a' b le h = h
more_good requested a a' b le (two, h) = (omega (arith, le, two), h)
more_good joining a a' b le h = h
more_good joined a a' b le h = h
more_good left a a' b le h = h
more_good failed a a' b le h = h

pub any_good :
    (s : BotStatus) (a a' b : ℕ) → is_requested s ≡ false → IsGoodStatus s a b → IsGoodStatus s a' b
any_good no_bot a a' b r h = h
any_good requested a a' b r h = cc
any_good joining a a' b r h = h
any_good joined a a' b r h = h
any_good left a a' b r h = h
any_good failed a a' b r h = h

pub more-IsGoodMeeting :
    (o : Option Meeting) (a a' b : ℕ) → a ≤ a' → IsGoodMeeting o a b → IsGoodMeeting o a' b
more-IsGoodMeeting none a a' b le h = h
more-IsGoodMeeting (some m) a a' b le h = more_good m.bot_status a a' b le h

pub same_id : (a b : Uuid) → a == b ≡ true → a ≡ b
same_id a b h = ground (arith, h)

insert-IsGood :
    (m : Meeting) (db : MeetingDb)
    → m.bot_status ≡ no_bot
    → IsGood db
    → IsGood (insert_meeting m db).1
insert-IsGood m db s good = elim (Option-cases (find_meeting m.id db.meetings)) [
  | inr (old, found) ↦ rw (found, insert_meeting) good
  | inl new ↦
      rw (new, insert_meeting)
        (λ id. elim (Bool-cases (m.id == id)) [
          | inl mine ↦
              let none_yet =
                subst (λ k. find_meeting k db.meetings ≡ none) (same_id m.id id mine) new in
              rw (mine, s) (rw none_yet at (good id))
          | inr other ↦ rw other (good id)
        ])
]

pub create-IsGood :
    (collab profile : Uuid) (body : MeetingCreateRequest) (call : CreateCall) (db : MeetingDb)
    → IsGood db
    → IsGood (create_meeting collab profile body call db).1
unfolding create_meeting
create-IsGood collab profile body call db good =
    elim (Bool-cases (valid_duration body.duration_min)) [
      | inr bad ↦ rw bad good
      | inl fine ↦ rw fine (
          checked (
            find (conflicts collab body.scheduled_at (end_of body.scheduled_at body.duration_min))
              db.meetings))
    ]
  where
    free : (o : Option (String × String)) → IsGood (create_free collab profile body call db o).1
    free none = good
    free (some event) = insert-IsGood (new_meeting collab profile body call event) db refl good

    checked : (o : Option Meeting) → IsGood (create_checked collab profile body call db o).1
    checked (some m) = good
    checked none = free call.calendar

patch_open-IsGood :
    (profile : Uuid) (body : MeetingPatchRequest) (call : PatchCall) (db : MeetingDb) (m : Meeting)
    → IsGood db
    → IsGood (patch_open profile body call db m).1
patch_open-IsGood profile body call db m good = elim (Bool-cases body.cancel) [
  | inl off ↦
      rw (off, patch_open)
        (mapped-IsGood db m.id (cancel_at call.now) (λ x. refl) (λ x a b h. h) good)
  | inr on ↦ elim (Bool-cases (has_change body)) [
    | inr nothing ↦ rw (on, nothing, patch_open) good
    | inl change ↦ elim (Bool-cases (has_event m.gcal_event_id && not call.calendar_ok)) [
      | inl failed_call ↦ rw (on, change, failed_call, patch_open) good
      | inr fine ↦
          rw (on, change, fine, patch_open)
            (mapped-IsGood db m.id (rescheduled body call) (λ x. refl) (λ x a b h. h) good)
    ]
  ]
]

pub patch-IsGood :
    (id profile : Uuid) (body : MeetingPatchRequest) (call : PatchCall) (db : MeetingDb)
    → IsGood db
    → IsGood (patch_meeting id profile body call db).1
unfolding patch_meeting
patch-IsGood id profile body call db good = elim (Bool-cases (valid_patch body.duration_min)) [
  | inr bad ↦ rw bad good
  | inl fine ↦ elim (Option-cases (find_meeting id db.meetings)) [
    | inl missing ↦ rw (fine, missing) good
    | inr (m, found) ↦ elim (Bool-cases (is_over m.status)) [
      | inl over ↦ rw (fine, found, over) good
      | inr live ↦ rw (fine, found, live) (patch_open-IsGood profile body call db m good)
    ]
  ]
]
