-- ===== src/Auth/Sessions/Single.antt =====
-- Lists of rows in which at most one passes a test.
use colab.Prelude.{
  ◌≤◌, Bool, true, false, Bool-cases, ◌≡◌, refl, sym, ◌∙◌, subst, inl, inr, none, some, List, [],
  ◌∷◌, find, any, length, select, update_where, if◌then◌else◌, arith,
}

module _ {A : Type 0} (q : A → Bool) where
  pub off_update :
      (p : A → Bool) (f : A → A) (xs : List A)
      → ((x : A) → q x ≡ false → q (f x) ≡ false)
      → any q xs ≡ false
      → any q (update_where p f xs) ≡ false
  off_update p f [] keep h = refl
  off_update p f (x ∷ xs) keep h = ground (arith, keep x, off_update p f xs keep)

  pub off_find : (xs : List A) → any q xs ≡ false → find q xs ≡ none
  off_find [] h = refl
  off_find (x ∷ xs) h = ground (arith, h, off_find xs)

  none_left : (xs : List A) → length (select q xs) ≤ 0 → any q xs ≡ false
  none_left [] h = refl
  none_left (x ∷ xs) h = ground (arith, h, none_left xs)

  clash : {s : A} → none ≡ some s → ⊥
  clash e = cc

  differ : {b : Bool} → b ≡ true → b ≡ false → ⊥
  differ h e = cc

  pub narrower :
      (w : A → Bool) (xs : List A)
      → ((x : A) → q x ≡ true → w x ≡ true)
      → any w xs ≡ false
      → any q xs ≡ false
  narrower w [] wide h = refl
  narrower w (x ∷ xs) wide h = ground (arith, h, wide x, narrower w xs wide)

module _ {A : Type 0} (q w : A → Bool) where
  -- The only row that a wider test finds is changed into one that the test does not find.
  pub off_only :
      (p : A → Bool) (f : A → A) (xs : List A) {s : A}
      → ((x : A) → q x ≡ true → w x ≡ true)
      → ((x : A) → q (f x) ≡ false)
      → p s ≡ true
      → length (select w xs) ≤ 1
      → find q xs ≡ some s
      → any q (update_where p f xs) ≡ false
  off_only p f [] wide gone here one e = cc
  off_only p f (x ∷ xs) {s} wide gone here one e = elim (Bool-cases (w x)) [
    | inl wx ↦
        let rest_off = narrower q w xs wide (none_left w xs (omega (arith, rw wx at one))) in
        let tail = off_update q p f xs (λ y _. gone y) rest_off in
        elim (Bool-cases (q x)) [
          | inl on ↦
              let same : x ≡ s = ground (arith, e, on) in
              let hit = subst (λ z. p z ≡ true) (sym same) here in rw hit (rw (gone x) tail)
          | inr off ↦ absurd (clash q (sym (off_find q xs rest_off) ∙ rw off at e))
        ]
    | inr miss ↦
        let off : q x ≡ false = elim (Bool-cases (q x)) [
          | inl on ↦ absurd (differ q (wide x on) miss)
          | inr off ↦ off
        ] in
        let tail = off_only p f xs wide gone here (rw miss at one) (rw off at e) in
        elim (Bool-cases (p x)) [
          | inl hit ↦ rw hit (rw (gone x) tail)
          | inr other ↦ rw other (rw off tail)
        ]
  ]

  pub find-narrower :
      (xs : List A) {s : A}
      → ((x : A) → q x ≡ true → w x ≡ true)
      → find w xs ≡ some s
      → q s ≡ true
      → find q xs ≡ some s
  find-narrower [] wide e h = cc
  find-narrower (x ∷ xs) {s} wide e h = elim (Bool-cases (w x)) [
    | inl wx ↦
        let same : x ≡ s = ground (arith, e, wx) in
        subst (λ z. (if q x then some x else find q xs) ≡ some z) same
          (rw (subst (λ z. q z ≡ true) (sym same) h) refl)
    | inr miss ↦
        let off : q x ≡ false = elim (Bool-cases (q x)) [
          | inl on ↦ absurd (differ q (wide x on) miss)
          | inr off ↦ off
        ] in
        rw off (find-narrower xs {s = s} wide (rw miss at e) h)
  ]

  pub only_off :
      (xs : List A) {s : A}
      → ((x : A) → q x ≡ true → w x ≡ true)
      → length (select w xs) ≤ 1
      → find w xs ≡ some s
      → q s ≡ false
      → any q xs ≡ false
  only_off [] wide one e h = refl
  only_off (x ∷ xs) {s} wide one e h = elim (Bool-cases (w x)) [
    | inl wx ↦
        let same : x ≡ s = ground (arith, e, wx) in
        let off = subst (λ z. q z ≡ false) (sym same) h in
        rw off (narrower q w xs wide (none_left w xs (omega (arith, rw wx at one))))
    | inr miss ↦
        let off : q x ≡ false = elim (Bool-cases (q x)) [
          | inl on ↦ absurd (differ q (wide x on) miss)
          | inr off ↦ off
        ] in
        rw off (only_off xs {s = s} wide (rw miss at one) (rw miss at e) h)
  ]

  pub missing_off :
      (xs : List A) → ((x : A) → q x ≡ true → w x ≡ true) → find w xs ≡ none → any q xs ≡ false
  missing_off [] wide e = refl
  missing_off (x ∷ xs) wide e = ground (arith, e, wide x, missing_off xs wide)

  pub find-wider :
      (xs : List A) {s : A}
      → ((x : A) → q x ≡ true → w x ≡ true)
      → length (select w xs) ≤ 1
      → find q xs ≡ some s
      → find w xs ≡ some s
  find-wider [] wide one e = cc
  find-wider (x ∷ xs) {s} wide one e = elim (Bool-cases (w x)) [
    | inl wx ↦ elim (Bool-cases (q x)) [
      | inl on ↦ rw wx (rw on at e)
      | inr off ↦
          let rest_off = narrower q w xs wide (none_left w xs (omega (arith, rw wx at one))) in
          absurd (clash q (sym (off_find q xs rest_off) ∙ rw off at e))
    ]
    | inr miss ↦
        let off : q x ≡ false = elim (Bool-cases (q x)) [
          | inl on ↦ absurd (differ q (wide x on) miss)
          | inr off ↦ off
        ] in
        rw miss (find-wider xs {s = s} wide (rw miss at one) (rw off at e))
  ]
