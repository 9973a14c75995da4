-- ===== src/Meeting/Bot/Frames.antt =====
-- What a write to one meeting does to the others.
use colab.Prelude.{
  ℕ, ◌≤◌, Bool, true, false, ◌&&◌, Bool-cases, Option-cases, ◌≡◌, refl, sym, ◌∙◌, subst, inl, inr,
  Option, none, some, List, [], ◌∷◌, ◌==◌, ==_refl, find-holds, find-update_where, any, length,
  select, update_where, if◌then◌else◌, arith,
}
use colab.Prelude.Uuid.{Uuid}
use colab.Meeting.Rows.{
  BotStatus, no_bot, requested, joining, joined, left, failed, Meeting, MeetingBotConsent, Post,
  MeetingDb, find_meeting, update_meeting,
}
use colab.Meeting.Bot.{is_active_for, active_count, is_of, upsert_consent}

-- The requests for a meeting's bot whose task came to its commit, and all requests for it.
abbrev pub post_count : Uuid → List Post → ℕ
post_count id posts = length (select (λ p. p.meeting_id == id && p.committed) posts)

abbrev pub all_count : Uuid → List Post → ℕ
all_count id posts = length (select (λ p. p.meeting_id == id) posts)

-- With `a` active consents and `b` requests of tasks that came to their commit: none before the dispatch, and two
-- consents once it is requested; then at most the three of one call.
abbrev pub IsGoodStatus : BotStatus → ℕ → ℕ → Type 0
IsGoodStatus no_bot a b = b ≡ 0
IsGoodStatus requested a b = (2 ≤ a) × (b ≡ 0)
IsGoodStatus _ a b = b ≤ 3

abbrev pub IsGoodMeeting : Option Meeting → ℕ → ℕ → Type 0
IsGoodMeeting none a b = b ≡ 0
IsGoodMeeting (some m) a b = IsGoodStatus m.bot_status a b

abbrev pub IsGood : MeetingDb → Type 0
IsGood db =
    (id : Uuid)
    → IsGoodMeeting (find_meeting id db.meetings) (active_count id db.consents)
        (post_count id db.posts)

same_id : (a b : Uuid) → a == b ≡ true → a ≡ b
same_id a b h = ground (arith, h)

pub find-own :
    (id : Uuid) (ms : List Meeting) {m : Meeting}
    → find_meeting id ms ≡ some m
    → find_meeting m.id ms ≡ some m
find-own id ms {m} e =
    subst (λ k. find_meeting k ms ≡ some m)
      (sym (same_id m.id id (find-holds (λ x. x.id == id) ms e))) e

apart : (a b c : Uuid) → a == c ≡ false → b == c ≡ true → b == a ≡ false
apart a b c h k = ground (arith, h, k)

find-other :
    (id mid : Uuid) (f : Meeting → Meeting) (ms : List Meeting)
    → ((x : Meeting) → (f x).id ≡ x.id)
    → id == mid ≡ false
    → find_meeting id (update_where (λ x. x.id == mid) f ms) ≡ find_meeting id ms
find-other id mid f [] keep h = refl
find-other id mid f (x ∷ xs) keep h = elim (Bool-cases (x.id == mid)) [
  | inl hit ↦
      let off = apart id x.id mid h hit in rw (hit, keep x, off) (find-other id mid f xs keep h)
  | inr miss ↦ rw (miss, find-other id mid f xs keep h) refl
]

module _ {A : Type 0} (q p : A → Bool) (f : A → A) where
  count-kept :
      (xs : List A)
      → ((x : A) → q x ≡ true → q (f x) ≡ true)
      → length (select q xs) ≤ length (select q (update_where p f xs))
  count-kept [] keep = omega arith
  count-kept (x ∷ xs) keep = ground (arith, keep x, count-kept xs keep)

  count-same :
      (xs : List A)
      → ((x : A) → p x ≡ true → q (f x) ≡ q x)
      → length (select q (update_where p f xs)) ≡ length (select q xs)
  count-same [] keep = refl
  count-same (x ∷ xs) keep = ground (arith, keep x, count-same xs keep)

renewed : ℕ → MeetingBotConsent → MeetingBotConsent
renewed now c = record c { consented_at = now; revoked_at = none }

module _ (id mid profile : Uuid) (now : ℕ) (cs : List MeetingBotConsent) where
  active_renewed :
      (c : MeetingBotConsent) → is_active_for id c ≡ true → is_active_for id (renewed now c) ≡ true
  unfolding renewed
  active_renewed c h = ground (arith, h)

  pub more_active : active_count id cs ≤ active_count id (upsert_consent mid profile now cs)
  unfolding renewed
  more_active = elim (Bool-cases (any (is_of mid profile) cs)) [
    | inl old ↦
        rw old (count-kept (is_active_for id) (is_of mid profile) (renewed now) cs active_renewed)
    | inr new ↦ rw new (ground arith)
  ]

  not_mine :
      (k : Uuid) (c : MeetingBotConsent)
      → id == mid ≡ false
      → is_of mid k c ≡ true
      → c.meeting_id == id ≡ false
  not_mine k c h e = ground (arith, h, e)

  pub other_active :
      id == mid ≡ false → active_count id (upsert_consent mid profile now cs) ≡ active_count id cs
  unfolding renewed
  other_active h = elim (Bool-cases (any (is_of mid profile) cs)) [
    | inl old ↦ rw old (
        count-same (is_active_for id) (is_of mid profile) (renewed now) cs
          (λ c e. rw (not_mine profile c h e) refl))
    | inr new ↦ let off : mid == id ≡ false = ground (arith, h) in rw (new, off) refl
  ]

  pub other_revoked :
      id == mid ≡ false
      → active_count id (
          update_where
            (λ c. is_active_for mid c && c.profile_id == profile)
            (λ c. record c { revoked_at = some now })
            cs)
        ≡ active_count id cs
  other_revoked h =
      count-same (is_active_for id) (λ c. is_active_for mid c && c.profile_id == profile)
        (λ c. record c { revoked_at = some now }) cs (λ c e. off c e)
    where
      off :
          (c : MeetingBotConsent)
          → (is_active_for mid c && c.profile_id == profile) ≡ true
          → is_active_for id (record c { revoked_at = some now }) ≡ is_active_for id c
      off c e = ground (arith, h, e)

pub chosen : (m n : Meeting) (b : Bool) → b ≡ true → some (if b then m else n) ≡ some m
chosen m n b h = rw h refl

-- A write to one meeting: the others stay good.
pub update-IsGood :
    (db : MeetingDb) (m : Meeting) (f : Meeting → Meeting) (cs : List MeetingBotConsent)
    (posts : List Post)
    → ((x : Meeting) → (f x).id ≡ x.id)
    → find_meeting m.id db.meetings ≡ some m
    → ((id : Uuid) → id == m.id ≡ false → active_count id cs ≡ active_count id db.consents)
    → ((id : Uuid) → id == m.id ≡ false → post_count id posts ≡ post_count id db.posts)
    → IsGoodStatus (f m).bot_status (active_count m.id cs) (post_count m.id posts)
    → IsGood db
    → (id : Uuid)
    → IsGoodMeeting
        (find_meeting id (update_where (λ x. x.id == m.id) f db.meetings))
        (active_count id cs)
        (post_count id posts)
update-IsGood db m f cs posts keep found a b now_good good id = elim (Bool-cases (id == m.id)) [
  | inl mine ↦
      let here =
        find-update_where (λ x. x.id == m.id) (λ x. x.id == m.id) f db.meetings {x = m}
          (λ x. rw (keep x) refl) found in
      let one : find_meeting m.id (update_where (λ x. x.id == m.id) f db.meetings) ≡ some (f m) =
        here ∙ chosen (f m) m (m.id == m.id) (==_refl m.id) in
      subst
        (λ k.
          IsGoodMeeting (find_meeting k (update_where (λ x. x.id == m.id) f db.meetings))
            (active_count k cs) (post_count k posts))
        (sym (same_id id m.id mine)) (rw one now_good)
  | inr other ↦ rw (find-other id m.id f db.meetings keep other, a id other, b id other) (good id)
]

pub at_most_three : (s : BotStatus) (a b : ℕ) → IsGoodStatus s a b → b ≤ 3
at_most_three no_bot a b h = omega (arith, h)
at_most_three requested a b (two, h) = omega (arith, h)
at_most_three joining a b h = h
at_most_three joined a b h = h
at_most_three left a b h = h
at_most_three failed a b h = h

find-missing :
    (id mid : Uuid) (f : Meeting → Meeting) (ms : List Meeting)
    → ((x : Meeting) → (f x).id ≡ x.id)
    → find_meeting id ms ≡ none
    → find_meeting id (update_where (λ x. x.id == mid) f ms) ≡ none
find-missing id mid f [] keep h = refl
find-missing id mid f (x ∷ xs) keep h = ground (arith, keep x, h, find-missing id mid f xs keep)

picked :
    (x : Meeting) (f : Meeting → Meeting) (c : Bool) (a b : ℕ)
    → (IsGoodStatus x.bot_status a b → IsGoodStatus (f x).bot_status a b)
    → IsGoodStatus x.bot_status a b
    → IsGoodMeeting (some (if c then f x else x)) a b
picked x f true a b imp h = imp h
picked x f false a b imp h = h

-- A write to one meeting that leaves the consents and the requests alone, and is right for every status.
pub mapped-IsGood :
    (db : MeetingDb) (mid : Uuid) (f : Meeting → Meeting)
    → ((x : Meeting) → (f x).id ≡ x.id)
    → ((x : Meeting) (a b : ℕ) → IsGoodStatus x.bot_status a b → IsGoodStatus (f x).bot_status a b)
    → IsGood db
    → IsGood (update_meeting mid f db)
mapped-IsGood db mid f keep imp good id = elim (Option-cases (find_meeting id db.meetings)) [
  | inl missing ↦ rw (find-missing id mid f db.meetings keep missing) (rw missing at (good id))
  | inr (x, found) ↦
      let later =
        find-update_where (λ y. y.id == id) (λ y. y.id == mid) f db.meetings {x = x}
          (λ y. rw (keep y) refl) found in
      let a = active_count id db.consents in
      let b = post_count id db.posts in
      subst (λ o. IsGoodMeeting o a b) (sym later)
        (picked x f (x.id == mid) a b (imp x a b) (rw found at (good id)))
]
