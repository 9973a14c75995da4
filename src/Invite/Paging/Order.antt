-- ===== src/Invite/Paging/Order.antt =====
-- The order of the rows, and how it meets the cut at a cursor.
use colab.Prelude.{
  ℕ, Bool, true, false, Bool-cases, ◌≡◌, ◌≢◌, refl, sym, ◌∙◌, ap, inl, inr, List, [], ◌∷◌, select,
  All, arith,
}
use colab.Prelude.Uuid.{Uuid}
use colab.Invite.Paging.{is_older, insert_desc, order_desc}

older_trans : (a b c : ℕ × Uuid) → is_older a b ≡ true → is_older b c ≡ true → is_older a c ≡ true
older_trans a b c h k = ground arith

older_total : (a b : ℕ × Uuid) → a.1 ≢ b.1 → is_older a b ≡ false → is_older b a ≡ true
older_total a b h k = ground arith

pub older_irrefl : (a : ℕ × Uuid) → is_older a a ≡ false
older_irrefl a = ground arith

module _ {A : Type 0} (key : A → ℕ × Uuid) where
  -- Every later row is older.
  abbrev pub Before : A → List A → Type 0
  Before x ys = All (λ y. is_older (key x) (key y) ≡ true) ys

  abbrev pub IsDesc : List A → Type 0
  IsDesc [] = Unit
  IsDesc (x ∷ xs) = Before x xs × IsDesc xs

  abbrev pub IsNewId : A → List A → Type 0
  IsNewId x ys = All (λ y. (key x).1 ≢ (key y).1) ys

  -- No two rows have the same id.
  abbrev pub HasUniqueIds : List A → Type 0
  HasUniqueIds [] = Unit
  HasUniqueIds (x ∷ xs) = IsNewId x xs × HasUniqueIds xs

  Before-trans :
      (x y : A) (zs : List A) → is_older (key x) (key y) ≡ true → Before y zs → Before x zs
  Before-trans x y [] h b = tt
  Before-trans x y (z ∷ zs) h b =
      (older_trans (key x) (key y) (key z) h b.0, Before-trans x y zs h b.1)

  All-insert :
      (P : A → Type 0) (x : A) (ys : List A) → P x → All P ys → All P (insert_desc key x ys)
  All-insert P x [] h a = (h, tt)
  All-insert P x (y ∷ ys) h a = elim (Bool-cases (is_older (key x) (key y))) [
    | inl front ↦ rw front (h, a)
    | inr back ↦ rw back (a.0, All-insert P x ys h a.1)
  ]

  All-order : (P : A → Type 0) (xs : List A) → All P xs → All P (order_desc key xs)
  All-order P [] a = tt
  All-order P (x ∷ xs) a = All-insert P x (order_desc key xs) a.0 (All-order P xs a.1)

  insert-IsDesc : (x : A) (ys : List A) → IsNewId x ys → IsDesc ys → IsDesc (insert_desc key x ys)
  insert-IsDesc x [] n d = (tt, tt)
  insert-IsDesc x (y ∷ ys) n d = elim (Bool-cases (is_older (key x) (key y))) [
    | inl front ↦ rw front ((front, Before-trans x y ys front d.0), d)
    | inr back ↦ rw back (
      All-insert (λ z. is_older (key y) (key z) ≡ true) x ys (older_total (key x) (key y) n.0 back)
          d.0,
      insert-IsDesc x ys n.1 d.1,
    )
  ]

  pub order-IsDesc : (xs : List A) → HasUniqueIds xs → IsDesc (order_desc key xs)
  order-IsDesc [] u = tt
  order-IsDesc (x ∷ xs) u =
      insert-IsDesc x (order_desc key xs) (All-order (λ y. (key x).1 ≢ (key y).1) xs u.0)
        (order-IsDesc xs u.1)

  module _ (p : A → Bool) where
    insert_front :
        (x : A) (ys : List A) → Before x ys → insert_desc key x (select p ys) ≡ x ∷ select p ys
    insert_front x [] b = refl
    insert_front x (y ∷ ys) b = elim (Bool-cases (p y)) [
      | inl in_ ↦ rw (in_, b.0) refl
      | inr out ↦ rw out (insert_front x ys b.1)
    ]

    select-insert_in :
        (x : A) (ys : List A)
        → p x ≡ true
        → IsDesc ys
        → select p (insert_desc key x ys) ≡ insert_desc key x (select p ys)
    select-insert_in x [] h d = rw h refl
    select-insert_in x (y ∷ ys) h d = elim (Bool-cases (is_older (key x) (key y))) [
      | inl front ↦
          rw (front, h) (sym (insert_front x (y ∷ ys) (front, Before-trans x y ys front d.0)))
      | inr back ↦ elim (Bool-cases (p y)) [
        | inl in_ ↦ rw (back, in_, back) (ap (λ l. y ∷ l) (select-insert_in x ys h d.1))
        | inr out ↦ rw (back, out) (select-insert_in x ys h d.1)
      ]
    ]

    select-insert_out :
        (x : A) (ys : List A) → p x ≡ false → select p (insert_desc key x ys) ≡ select p ys
    select-insert_out x [] h = rw h refl
    select-insert_out x (y ∷ ys) h = elim (Bool-cases (is_older (key x) (key y))) [
      | inl front ↦ rw (front, h) refl
      | inr back ↦ rw (back, select-insert_out x ys h) refl
    ]

    -- Filtering the rows first or last is the same.
    pub select-order :
        (xs : List A)
        → HasUniqueIds xs
        → order_desc key (select p xs) ≡ select p (order_desc key xs)
    select-order [] u = refl
    select-order (x ∷ xs) u = elim (Bool-cases (p x)) [
      | inl in_ ↦
          rw (in_, select-order xs u.1)
            (sym (select-insert_in x (order_desc key xs) in_ (order-IsDesc xs u.1)))
      | inr out ↦ rw out (select-order xs u.1 ∙ sym (select-insert_out x (order_desc key xs) out))
    ]
