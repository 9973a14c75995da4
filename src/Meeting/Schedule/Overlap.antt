-- ===== src/Meeting/Schedule/Overlap.antt =====
-- No two meetings of a collaboration overlap where each was created under the check.
use colab.Prelude.{
  ℕ, ◌+◌, ◌*◌, ◌≤◌, String, Bool, false, ◌&&◌, Bool-cases, Option-cases, ◌≡◌, ◌≢◌, sym, ◌⊎◌, inl,
  inr, Option, none, some, List, [], ◌∷◌, ==_refl, ltb, find, All, All-map, arith,
}
use colab.Prelude.Uuid.{Uuid}
use colab.Meeting.Rows.{Meeting, MeetingStatus, cancelled, MeetingDb, find_meeting}
use colab.Meeting.Schedule.{
  MeetingCreateRequest, CreateCall, valid_duration, is_cancelled, conflicts, end_of, new_meeting,
  insert_meeting, create_free, create_meeting,
}

-- When a meeting is over, in microseconds.
abbrev pub over_at : Meeting → ℕ
over_at m = m.scheduled_at + m.duration_min * 60_000_000

-- Of two meetings of one collaboration, neither of them cancelled, one is over when the other starts.
abbrev pub IsApart : Meeting → Meeting → Type 0
IsApart m n =
    m.collab_id ≡ n.collab_id
    → m.status ≢ cancelled
    → n.status ≢ cancelled
    → (over_at m ≤ n.scheduled_at) ⊎ (over_at n ≤ m.scheduled_at)

abbrev pub NoOverlap : List Meeting → Type 0
NoOverlap [] = Unit
NoOverlap (m ∷ ms) = All (IsApart m) ms × NoOverlap ms

not_cancelled : (s : MeetingStatus) → s ≢ cancelled → is_cancelled s ≡ false
not_cancelled s n = ground (arith, n)

-- What the query of `create_meeting` does not find is apart.
conflicts-IsApart :
    (m n : Meeting) → conflicts m.collab_id m.scheduled_at (over_at m) n ≡ false → IsApart m n
conflicts-IsApart m n miss same _ live =
    times (rw (sym same, ==_refl m.collab_id, not_cancelled n.status live) at miss)
  where
    times :
        (ltb n.scheduled_at (over_at m) && ltb m.scheduled_at (over_at n)) ≡ false
        → (over_at m ≤ n.scheduled_at) ⊎ (over_at n ≤ m.scheduled_at)
    times h = elim (Bool-cases (ltb n.scheduled_at (over_at m))) [
      | inr before ↦ inl (ground (arith, before))
      | inl starts ↦ inr (ground (arith, starts, h))
    ]

none-conflicts :
    (c : Uuid) (start stop : ℕ) (ms : List Meeting)
    → find (conflicts c start stop) ms ≡ none
    → All (λ n. conflicts c start stop n ≡ false) ms
none-conflicts c start stop [] h = tt
none-conflicts c start stop (m ∷ ms) h = elim (Bool-cases (conflicts c start stop m)) [
  | inl hit ↦ absurd (clash (rw hit at h))
  | inr miss ↦ (miss, none-conflicts c start stop ms (rw miss at h))
]
  where
    clash : some m ≡ none → ⊥
    clash e = cc

insert-NoOverlap :
    (m : Meeting) (db : MeetingDb)
    → All (IsApart m) db.meetings
    → NoOverlap db.meetings
    → NoOverlap (insert_meeting m db).1.meetings
insert-NoOverlap m db free h = elim (Option-cases (find_meeting m.id db.meetings)) [
  | inl new ↦ rw (new, insert_meeting) (free, h)
  | inr (old, found) ↦ rw (found, insert_meeting) h
]

-- Where of any two meetings of a collaboration that are not cancelled one is over when the other starts, a request to
-- create a meeting keeps it so, whether it succeeds or not.
pub create_meeting-NoOverlap :
    (collab profile : Uuid) (body : MeetingCreateRequest) (call : CreateCall) (db : MeetingDb)
    → NoOverlap db.meetings
    → NoOverlap (create_meeting collab profile body call db).1.meetings
unfolding create_meeting
create_meeting-NoOverlap collab profile body call db h =
    elim (Bool-cases (valid_duration body.duration_min)) [
      | inr bad ↦ rw bad h
      | inl fine ↦ elim (Option-cases (find q db.meetings)) [
        | inr (m, taken) ↦ rw (fine, taken) h
        | inl no_conflict ↦
            rw (fine, no_conflict)
              (free (none-conflicts collab body.scheduled_at stop db.meetings no_conflict)
                call.calendar)
      ]
    ]
  where
    stop : ℕ
    stop = end_of body.scheduled_at body.duration_min

    q : Meeting → Bool
    q = conflicts collab body.scheduled_at (end_of body.scheduled_at body.duration_min)

    free :
        All
          (λ n.
            conflicts collab body.scheduled_at (end_of body.scheduled_at body.duration_min) n
            ≡ false)
          db.meetings
        → (o : Option (String × String))
        → NoOverlap (create_free collab profile body call db o).1.meetings
    free a none = h
    free a (some event) =
        let m = new_meeting collab profile body call event in
        insert-NoOverlap m db
          (All-map (λ n. conflicts m.collab_id m.scheduled_at (over_at m) n ≡ false) (IsApart m)
            db.meetings (conflicts-IsApart m) a)
          h
