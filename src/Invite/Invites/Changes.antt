-- ===== src/Invite/Invites/Changes.antt =====
-- What one step does to the invites: nothing, a new row, or an answer to rows that were pending.
use colab.Prelude.{
  ℕ, Bool, true, false, ◌&&◌, Bool-cases, ◌≡◌, ◌≢◌, refl, sym, ◌∙◌, subst, inl, inr, some, List, [],
  ◌∷◌, ◌++◌, ◌==◌, any, find, any-find, select, update_where, All-update_where, All, All-map,
  All-find, find-update_where, length, ◌≤◌, arith,
}
use colab.Prelude.Uuid.{Uuid}
use colab.Invite.Paging.Order.{HasUniqueIds, IsNewId}
use colab.Invite.Invites.{responded, find_invite}
use colab.Invite.Invites.Lists.{invite_key}
use colab.Invite.Invites.Rows.{
  InviteStatus, CollabInvite, InviteDb, Event, match_created, is_pending, is_accepted,
}

-- Is this an accepted invite with that id, from a to b?
abbrev pub is_accepted_as : Uuid → Uuid → Uuid → CollabInvite → Bool
is_accepted_as id a b i =
    i.id == id && i.from_profile_id == a && i.to_profile_id == b && is_accepted i.status

abbrev pub HasAccepted : Uuid → Uuid → Uuid → List CollabInvite → Type 0
HasAccepted id a b invites = any (is_accepted_as id a b) invites ≡ true

-- A match that was published stands for two accepted invites, one in each direction.
abbrev pub IsBacked : List CollabInvite → Event → Type 0
IsBacked invites (match_created a b i j) = HasAccepted i a b invites × HasAccepted j b a invites
IsBacked invites _ = Unit

-- Where the test holds, the row is pending.
abbrev pub OnPending : (CollabInvite → Bool) → List CollabInvite → Type 0
OnPending p invites = All (λ i. p i ≡ true → is_pending i.status ≡ true) invites

pub data Rewrite (old : List CollabInvite) : List CollabInvite → Type 0 where
  kept : {new : List CollabInvite} → new ≡ old → Rewrite old new
  added :
      {new : List CollabInvite} (i : CollabInvite)
      → is_pending i.status ≡ true
      → any (λ x. x.id == i.id) old ≡ false
      → new ≡ i ∷ old
      → Rewrite old new
  answered :
      {new : List CollabInvite} (p : CollabInvite → Bool) (s : InviteStatus) (now : ℕ)
      → is_pending s ≡ false
      → OnPending p old
      → new ≡ update_where p (responded s now) old
      → Rewrite old new

pub record Change (db after : InviteDb) : Type 0 where
  pub rows : Rewrite db.invites after.invites
  pub events : List Event
  pub published : after.published ≡ events ++ db.published
  pub backed : All (IsBacked after.invites) events

abbrev pub UniqueIds : List CollabInvite → Type 0
UniqueIds xs = HasUniqueIds invite_key xs

-- Lists: a test that fails on the rows that change.
module _ {A : Type 0} (q : A → Bool) where
  pub any-found :
      (p : A → Bool) (xs : List A) {x : A} → find p xs ≡ some x → q x ≡ true → any q xs ≡ true
  any-found p [] e h = cc
  any-found p (y ∷ ys) {x} e h = ground (arith, any-found p ys {x = x})

  pub any-selected :
      (p : A → Bool) (xs : List A) {m : A} {ms : List A}
      → select p xs ≡ m ∷ ms
      → (p m ≡ true → q m ≡ true)
      → any q xs ≡ true
  any-selected p [] e h = cc
  any-selected p (y ∷ ys) {m} {ms} e h = elim (Bool-cases (p y)) [
    | inl hit ↦
        let same : y ≡ m = ground (arith, e, hit) in
        let on = subst (λ z. q z ≡ true) (sym same) (h (subst (λ z. p z ≡ true) same hit)) in
        rw on refl
    | inr miss ↦
        let rest = any-selected p ys {m = m} {ms = ms} (rw miss at e) h in ground (arith, rest)
  ]

  kept_any :
      (p : A → Bool) (f : A → A) (xs : List A)
      → All (λ x. p x ≡ true → q x ≡ false) xs
      → any q xs ≡ true
      → any q (update_where p f xs) ≡ true
  kept_any p f [] h e = e
  kept_any p f (x ∷ xs) h e = elim (Bool-cases (p x)) [
    | inl hit ↦ let off = h.0 hit in rw hit (ground (arith, kept_any p f xs h.1 (rw off at e)))
    | inr miss ↦ rw miss (elim (Bool-cases (q x)) [
      | inl on ↦ rw on refl
      | inr off ↦ rw off (kept_any p f xs h.1 (rw off at e))
    ])
  ]

  kept_count :
      (p : A → Bool) (f : A → A) (xs : List A)
      → All (λ x. p x ≡ true → q x ≡ false) xs
      → length (select q xs) ≤ length (select q (update_where p f xs))
  kept_count p f [] h = omega arith
  kept_count p f (x ∷ xs) h = elim (Bool-cases (p x)) [
    | inl hit ↦ let off = h.0 hit in rw (hit, off) (ground (arith, kept_count p f xs h.1))
    | inr miss ↦ rw miss (ground (arith, kept_count p f xs h.1))
  ]

pub differ : {b : Bool} → b ≡ true → b ≡ false → ⊥
differ e h = cc

pub same_id : (id : Uuid) (x : CollabInvite) → x.id == id ≡ true → x.id ≡ id
same_id id x h = ground (arith, h)

pub new_free :
    (id : Uuid) (xs : List CollabInvite) → All (λ y. id ≢ y.id) xs → OnPending (λ y. y.id == id) xs
new_free id xs =
    All-map (λ y. id ≢ y.id) (λ y. y.id == id ≡ true → is_pending y.status ≡ true) xs
      (λ y n e. absurd (n (sym (same_id id y e))))

All-refl : (xs : List CollabInvite) → All (λ x. x ≡ x) xs
All-refl [] = tt
All-refl (x ∷ xs) = (refl, All-refl xs)

-- A row that was found is found under its own id.
pub find-own :
    (id : Uuid) (xs : List CollabInvite) {i : CollabInvite}
    → find_invite id xs ≡ some i
    → find_invite i.id xs ≡ some i
find-own id xs {i} e =
    let (_, mine) = All-find (λ x. x ≡ x) (λ x. x.id == id) xs (All-refl xs) e in
    subst (λ k. find_invite k xs ≡ some i) (sym (same_id id i mine)) e

-- The only row with the id of a row that was found is that row.
pub found_pending :
    (id : Uuid) (xs : List CollabInvite) {i : CollabInvite}
    → UniqueIds xs
    → find_invite id xs ≡ some i
    → is_pending i.status ≡ true
    → OnPending (λ x. x.id == id) xs
found_pending id [] u e h = tt
found_pending id (x ∷ xs) {i} u e h = elim (Bool-cases (x.id == id)) [
  | inl here ↦
      let same : x ≡ i = ground (arith, e, here) in
      (
        λ _. subst (λ z. is_pending z.status ≡ true) (sym same) h,
        new_free id xs (subst (λ k. All (λ y. k ≢ y.id) xs) (same_id id x here) u.0),
      )
  | inr later ↦ (λ e'. ground (arith, e', later), found_pending id xs {i = i} u.1 (rw later at e) h)
]

-- What a step keeps: unique ids, the settled rows, and every test that holds of settled rows only.
abbrev pub HoldsOfSettled : (CollabInvite → Bool) → Type 0
HoldsOfSettled q = (x : CollabInvite) → is_pending x.status ≡ true → q x ≡ false

off_pending :
    (q p : CollabInvite → Bool) (xs : List CollabInvite)
    → HoldsOfSettled q
    → OnPending p xs
    → All (λ x. p x ≡ true → q x ≡ false) xs
off_pending q p xs off =
    All-map (λ i. p i ≡ true → is_pending i.status ≡ true) (λ x. p x ≡ true → q x ≡ false) xs
      (λ x h e. off x (h e))

pub Rewrite-any :
    (q : CollabInvite → Bool) {old new : List CollabInvite}
    → HoldsOfSettled q
    → Rewrite old new
    → any q old ≡ true
    → any q new ≡ true
Rewrite-any q off (kept e) h = rw e h
Rewrite-any q off (added i w n e) h = rw e (ground (arith, h))
Rewrite-any q {old} off (answered p s now w o e) h =
    rw e (kept_any q p (responded s now) old (off_pending q p old off o) h)

pub Rewrite-count :
    (q : CollabInvite → Bool) {old new : List CollabInvite}
    → HoldsOfSettled q
    → Rewrite old new
    → length (select q old) ≤ length (select q new)
Rewrite-count q off (kept e) = rw e (omega arith)
Rewrite-count q off (added i w n e) = rw e (ground arith)
Rewrite-count q {old} off (answered p s now w o e) =
    rw e (kept_count q p (responded s now) old (off_pending q p old off o))

new-IsNewId :
    (i : CollabInvite) (xs : List CollabInvite)
    → any (λ x. x.id == i.id) xs ≡ false
    → IsNewId invite_key i xs
new-IsNewId i [] h = tt
new-IsNewId i (x ∷ xs) h = (ground (arith, h), new-IsNewId i xs (ground (arith, h)))

update-IsNewId :
    (k : ℕ × Uuid) (p : CollabInvite → Bool) (s : InviteStatus) (now : ℕ) (xs : List CollabInvite)
    → All (λ y. k.1 ≢ y.id) xs
    → All (λ y. k.1 ≢ y.id) (update_where p (responded s now) xs)
update-IsNewId k p s now xs h =
    All-update_where (λ y. k.1 ≢ y.id) (λ y. k.1 ≢ y.id) p (responded s now) xs (λ x n _. n)
      (λ x n _. n) h

update-UniqueIds :
    (p : CollabInvite → Bool) (s : InviteStatus) (now : ℕ) (xs : List CollabInvite)
    → UniqueIds xs
    → UniqueIds (update_where p (responded s now) xs)
update-UniqueIds p s now [] u = tt
update-UniqueIds p s now (x ∷ xs) u = elim (Bool-cases (p x)) [
  | inl hit ↦ rw hit (update-IsNewId (invite_key x) p s now xs u.0, update-UniqueIds p s now xs u.1)
  | inr miss ↦
      rw miss (update-IsNewId (invite_key x) p s now xs u.0, update-UniqueIds p s now xs u.1)
]

pub Rewrite-UniqueIds :
    {old new : List CollabInvite} → Rewrite old new → UniqueIds old → UniqueIds new
Rewrite-UniqueIds (kept e) u = rw e u
Rewrite-UniqueIds {old} (added i w n e) u = rw e (new-IsNewId i old n, u)
Rewrite-UniqueIds {old} (answered p s now w o e) u = rw e (update-UniqueIds p s now old u)

pub Rewrite-settled :
    (id : Uuid) {old new : List CollabInvite} {r : CollabInvite}
    → Rewrite old new
    → find_invite id old ≡ some r
    → is_pending r.status ≡ false
    → find_invite id new ≡ some r
Rewrite-settled id (kept e) h k = rw e h
Rewrite-settled id {old} {r = r} (added i w n e) h k = elim (Bool-cases (i.id == id)) [
  | inl clash ↦
      let free = subst (λ k'. any (λ x. x.id == k') old ≡ false) (same_id id i clash) n in
      absurd (differ (any-find (λ x. x.id == id) old {x = r} h) free)
  | inr other ↦ rw e (rw other h)
]
Rewrite-settled id {old} {r = r} (answered p s now w o e) h k =
    let (on, _) =
      All-find (λ i. p i ≡ true → is_pending i.status ≡ true) (λ i. i.id == id) old o h in
    let miss : p r ≡ false = elim (Bool-cases (p r)) [
      | inl hit ↦ absurd (differ (on hit) k)
      | inr miss ↦ miss
    ] in
    rw e (find-update_where (λ i. i.id == id) p (responded s now) old (λ x. refl) h ∙ rw miss refl)
