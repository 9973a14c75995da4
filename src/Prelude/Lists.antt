-- ===== src/Prelude/Lists.antt =====
-- Lists of rows: measured by native numbers, and searched and updated the way a query does.
use colab.Prelude.Tests.{if◌then◌else◌, Bool-cases}
use Prim.Native.Nat.{ℕ, suc, ◌+◌}
use mathlib.Core.Path.{◌≡◌, refl, subst}
use mathlib.Core.Logic.{◌⊎◌, inl, inr}
use mathlib.Core.Bool.{Bool, true, false, ◌||◌, ◌&&◌}
use mathlib.Core.Option.{Option, none, some}
use mathlib.Core.List.{List, [], ◌∷◌, ◌++◌}
use native.Mathlib.Omega.{arith}

module _ {ℓ} {A : Type ℓ} where
  abbrev pub length : List A → ℕ
  length [] = 0
  length (x ∷ xs) = suc (length xs)

  -- The first row that passes the test.
  abbrev pub find : (A → Bool) → List A → Option A
  find p [] = none
  find p (x ∷ xs) = if p x then some x else find p xs

  -- Is there a row that passes the test?
  abbrev pub any : (A → Bool) → List A → Bool
  any p [] = false
  any p (x ∷ xs) = p x || any p xs

  abbrev pub all : (A → Bool) → List A → Bool
  all p [] = true
  all p (x ∷ xs) = p x && all p xs

  -- The rows that pass the test, in their order: `SELECT … WHERE`.
  abbrev pub select : (A → Bool) → List A → List A
  select p [] = []
  select p (x ∷ xs) = let rest = select p xs in if p x then x ∷ rest else rest

  -- `UPDATE … WHERE`: every row that passes the test is changed.
  abbrev pub update_where : (A → Bool) → (A → A) → List A → List A
  update_where p f [] = []
  update_where p f (x ∷ xs) = (if p x then f x else x) ∷ update_where p f xs

  pub length-append : (xs ys : List A) → length (xs ++ ys) ≡ length xs + length ys
  length-append [] ys = omega arith
  length-append (x ∷ xs) ys = omega (arith, length-append xs ys)

  pub length-update_where :
      (p : A → Bool) (f : A → A) (xs : List A) → length (update_where p f xs) ≡ length xs
  length-update_where p f [] = refl
  length-update_where p f (x ∷ xs) = omega (arith, length-update_where p f xs)

-- What every row of a list satisfies.
abbrev pub All {ℓ κ} : {A : Type ℓ} → (A → Type κ) → List A → Type κ
All P [] = Unit
All P (x ∷ xs) = P x × All P xs

-- `scalar_one_or_none()`: more than one row raises MultipleResultsFound.
pub data Scalar {ℓ} (A : Type ℓ) : Type ℓ where
  no_row : Scalar A
  one_row : A → Scalar A
  multiple_rows : Scalar A

abbrev pub scalar_one_or_none {ℓ} : {A : Type ℓ} → List A → Scalar A
scalar_one_or_none [] = no_row
scalar_one_or_none (x ∷ []) = one_row x
scalar_one_or_none (x ∷ y ∷ xs) = multiple_rows

-- To split on the rows of a query and keep the equation.
pub rows-cases {ℓ} :
    {A : Type ℓ} (xs : List A)
    → (xs ≡ [])
      ⊎ ((x : A) × (xs ≡ x ∷ []))
      ⊎ ((x : A) × (y : A) × (ys : List A) × (xs ≡ x ∷ y ∷ ys))
rows-cases [] = inl refl
rows-cases (x ∷ []) = inr (inl (x, refl))
rows-cases (x ∷ y ∷ ys) = inr (inr (x, y, ys, refl))

-- An update carries each row's fact over to the new row.
pub All-update_where {ℓ κ} :
    {A : Type ℓ} (P Q : A → Type κ) (p : A → Bool) (f : A → A) (xs : List A)
    → ((x : A) → P x → p x ≡ true → Q (f x))
    → ((x : A) → P x → p x ≡ false → Q x)
    → All P xs
    → All Q (update_where p f xs)
All-update_where P Q p f [] hit miss h = tt
All-update_where P Q p f (x ∷ xs) hit miss h =
    (choose (p x) refl, All-update_where P Q p f xs hit miss h.1)
  where
    choose : (b : Bool) → p x ≡ b → Q (if b then f x else x)
    choose true e = hit x h.0 e
    choose false e = miss x h.0 e

pub All-map {ℓ κ} :
    {A : Type ℓ} (P Q : A → Type κ) (xs : List A) → ((x : A) → P x → Q x) → All P xs → All Q xs
All-map P Q [] k h = tt
All-map P Q (x ∷ xs) k h = (k x h.0, All-map P Q xs k h.1)

-- The row that a query finds passes its test and has what every row has.
pub All-find {ℓ κ} :
    {A : Type ℓ} (P : A → Type κ) (p : A → Bool) (xs : List A) {x : A}
    → All P xs
    → find p xs ≡ some x
    → P x × (p x ≡ true)
All-find P p [] h e = cc
All-find P p (y ∷ ys) {x} h e = elim (Bool-cases (p y)) [
  | inl hit ↦ let same : y ≡ x = ground arith in subst (λ z. P z × (p z ≡ true)) same (h.0, hit)
  | inr miss ↦ All-find P p ys h.1 (rw miss at e)
]

pub any-update_where {ℓ} :
    {A : Type ℓ} (q p : A → Bool) (f : A → A) (xs : List A)
    → ((x : A) → q (f x) ≡ q x)
    → any q (update_where p f xs) ≡ any q xs
any-update_where q p f [] keep = refl
any-update_where q p f (x ∷ xs) keep = ground (arith, keep x, any-update_where q p f xs keep)

-- Where no row passes the test, none is found, and the other way round.
pub any-find {ℓ} :
    {A : Type ℓ} (p : A → Bool) (xs : List A) {x : A} → find p xs ≡ some x → any p xs ≡ true
any-find p [] e = cc
any-find p (y ∷ ys) {x} e = ground (arith, any-find p ys {x = x})

-- A query that an update does not affect finds the updated row in place of the old one.
pub find-update_where {ℓ} :
    {A : Type ℓ} (p q : A → Bool) (f : A → A) (xs : List A) {x : A}
    → ((x : A) → p (f x) ≡ p x)
    → find p xs ≡ some x
    → find p (update_where q f xs) ≡ some (if q x then f x else x)
find-update_where p q f [] keep e = cc
find-update_where p q f (y ∷ ys) {x} keep e =
    ground (arith, keep y, find-update_where p q f ys {x = x} keep)

pub find-holds {ℓ} :
    {A : Type ℓ} (p : A → Bool) (xs : List A) {x : A} → find p xs ≡ some x → p x ≡ true
find-holds p [] e = cc
find-holds p (y ∷ ys) {x} e = elim (Bool-cases (p y)) [
  | inl hit ↦ let same : y ≡ x = ground arith in subst (λ z. p z ≡ true) same hit
  | inr miss ↦ find-holds p ys (rw miss at e)
]
