-- ===== src/Invite/Paging/Complete.antt =====
-- The pages of a listing are its rows.
use colab.Prelude.{
  ℕ, zero, suc, ◌≤◌, ◌<◌, true, false, Bool-cases, ◌≡◌, refl, sym, ◌∙◌, ap, subst, inl, inr, Option,
  none, some, List, [], ◌∷◌, ◌++◌, ltb, length, select, arith,
}
use mathlib.Core.List.{append_assoc}
use colab.Prelude.Uuid.{Uuid}
use colab.Invite.Invites.Expiry.{limit}
use colab.Invite.Paging.{
  Cursors, is_older, insert_desc, order_desc, last_key, after_cursor, decoded, page, follow,
}
use colab.Invite.Paging.Order.{
  older_irrefl, Before, IsDesc, HasUniqueIds, order-IsDesc, select-order,
}

older_asym : (a b : ℕ × Uuid) → is_older a b ≡ true → is_older b a ≡ false
older_asym a b h = ground arith

abbrev drop {ℓ} : {A : Type ℓ} → ℕ → List A → List A
drop zero xs = xs
drop (suc n) [] = []
drop (suc n) (x ∷ xs) = drop n xs

limit-drop {ℓ} : {A : Type ℓ} (n : ℕ) (xs : List A) → limit n xs ++ drop n xs ≡ xs
limit-drop zero xs = refl
limit-drop (suc n) [] = refl
limit-drop (suc n) (x ∷ xs) = ap (λ l. x ∷ l) (limit-drop n xs)

limit-limit {ℓ} : {A : Type ℓ} (n : ℕ) (xs : List A) → limit n (limit (suc n) xs) ≡ limit n xs
limit-limit zero xs = refl
limit-limit (suc n) [] = refl
limit-limit (suc n) (x ∷ xs) = ap (λ l. x ∷ l) (limit-limit n xs)

limit_more {ℓ} :
    {A : Type ℓ} (n : ℕ) (xs : List A) → ltb n (length (limit (suc n) xs)) ≡ ltb n (length xs)
limit_more zero [] = refl
limit_more zero (x ∷ xs) = ground arith
limit_more (suc n) [] = refl
limit_more (suc n) (x ∷ xs) = ground (arith, limit_more n xs)

limit_all {ℓ} : {A : Type ℓ} (n : ℕ) (xs : List A) → ltb n (length xs) ≡ false → limit n xs ≡ xs
limit_all zero [] h = refl
limit_all (suc n) [] h = refl
limit_all zero (x ∷ xs) h = absurd (ground arith)
limit_all (suc n) (x ∷ xs) h = ap (λ l. x ∷ l) (limit_all n xs (ground arith))

length-drop {ℓ} : {A : Type ℓ} (n : ℕ) (xs : List A) → length (drop n xs) ≤ length xs
length-drop zero xs = omega arith
length-drop (suc n) [] = omega arith
length-drop (suc n) (x ∷ xs) = omega (arith, length-drop n xs)

module _ {A : Type 0} (key : A → ℕ × Uuid) where
  select_all :
      (x : A) (ys : List A) → Before key x ys → select (λ y. is_older (key x) (key y)) ys ≡ ys
  select_all x [] b = refl
  select_all x (y ∷ ys) b = rw b.0 (ap (λ l. y ∷ l) (select_all x ys b.1))

  last-Before :
      (x y : A) (items rest : List A)
      → Before key x (y ∷ items ++ rest)
      → is_older (key x) (last_key key y items) ≡ true
  last-Before x y [] rest b = b.0
  last-Before x y (z ∷ items) rest b = last-Before x z items rest b.1

  -- What is older than the last item is what follows it.
  after_items :
      (x : A) (items rest : List A)
      → IsDesc key (x ∷ items ++ rest)
      → select (λ y. is_older (last_key key x items) (key y)) (x ∷ items ++ rest) ≡ rest
  after_items x [] rest d = rw (older_irrefl (key x)) (select_all x rest d.0)
  after_items x (y ∷ items) rest d =
      rw (older_asym (key x) (last_key key y items) (last-Before x y items rest d.0))
        (after_items y items rest d.1)

  Before-skip :
      (q x : A) (items earlier rest : List A)
      → Before key q (earlier ++ (x ∷ items ++ rest))
      → is_older (key q) (last_key key x items) ≡ true
  Before-skip q x items [] rest b = last-Before q x items rest b
  Before-skip q x items (e ∷ earlier) rest b = Before-skip q x items earlier rest b.1

  after_page :
      (earlier : List A) (x : A) (items rest : List A)
      → IsDesc key (earlier ++ (x ∷ items ++ rest))
      → select (λ y. is_older (last_key key x items) (key y)) (earlier ++ (x ∷ items ++ rest))
        ≡ rest
  after_page [] x items rest d = after_items x items rest d
  after_page (q ∷ earlier) x items rest d =
      rw (older_asym (key q) (last_key key x items) (Before-skip q x items earlier rest d.0))
        (after_page earlier x items rest d.1)

  suffix_IsDesc : (earlier rest : List A) → IsDesc key (earlier ++ rest) → IsDesc key rest
  suffix_IsDesc [] rest d = d
  suffix_IsDesc (q ∷ earlier) rest d = suffix_IsDesc earlier rest d.1

  module _ {C : Type 0} (cs : Cursors C) (rows : List A) (unique : HasUniqueIds key rows) where
    -- What a cursor lets through.
    abbrev seen : Option C → List A
    seen c = order_desc key (after_cursor key (decoded key cs c) rows)

    after-seen :
        (earlier : List A) (x : A) (items rest : List A)
        → order_desc key rows ≡ earlier ++ (x ∷ items ++ rest)
        → seen (some (cs.encode (last_key key x items))) ≡ rest
    after-seen earlier x items rest e =
        rw
          (
            cs.decode-encode (last_key key x items),
            select-order key (λ y. is_older (last_key key x items) (key y)) rows unique,
            e,
          )
          (after_page earlier x items rest (subst (IsDesc key) e (order-IsDesc key rows unique)))

    page_nil : (size : ℕ) (c : Option C) → seen c ≡ [] → page key cs (suc size) c rows ≡ ([], none)
    unfolding page
    page_nil size c e = rw e refl

    page_more :
        (size : ℕ) (c : Option C) (x : A) (rest : List A)
        → seen c ≡ x ∷ rest
        → ltb (suc size) (length (x ∷ rest)) ≡ true
        → page key cs (suc size) c rows
          ≡ (x ∷ limit size rest, some (cs.encode (last_key key x (limit size rest))))
    unfolding page
    page_more size c x rest e more =
        rw (e, limit_more (suc size) (x ∷ rest), more, limit-limit size rest) refl

    page_done :
        (size : ℕ) (c : Option C) (x : A) (rest : List A)
        → seen c ≡ x ∷ rest
        → ltb (suc size) (length (x ∷ rest)) ≡ false
        → page key cs (suc size) c rows ≡ (x ∷ rest, none)
    unfolding page
    page_done size c x rest e done =
        rw
          (
            e,
            limit_more (suc size) (x ∷ rest),
            done,
            limit-limit size rest,
            limit_all size rest (ground (arith, done)),
          )
          refl

    follow_rest :
        (size fuel : ℕ) (c : Option C) (earlier rest : List A)
        → seen c ≡ rest
        → order_desc key rows ≡ earlier ++ rest
        → length rest ≤ fuel
        → follow key (λ d. page key cs (suc size) d rows) fuel c ≡ rest
    unfolding follow
    follow_rest size zero c earlier [] e split l = refl
    follow_rest size zero c earlier (x ∷ rest) e split l = absurd (omega (arith, l))
    follow_rest size (suc fuel) c earlier [] e split l = rw (follow, page_nil size c e) refl
    follow_rest size (suc fuel) c earlier (x ∷ rest) e split l =
        elim (Bool-cases (ltb (suc size) (length (x ∷ rest)))) [
          | inl more ↦
              let items = limit size rest in
              let later = drop size rest in
              let whole : order_desc key rows ≡ earlier ++ (x ∷ items ++ later) =
                rw (limit-drop size rest) split in
              let next =
                follow_rest size fuel (some (cs.encode (last_key key x items)))
                  (earlier ++ (x ∷ items)) later (after-seen earlier x items later whole)
                  (whole ∙ sym (append_assoc earlier (x ∷ items) later))
                  (omega (arith, l, length-drop size rest)) in
              rw (page_more size c x rest e more, next) (ap (λ t. x ∷ t) (limit-drop size rest))
          | inr done ↦ rw (page_done size c x rest e done) refl
        ]

-- Following the cursors from the first page reads every row once, in the order of the listing.
pub follow-eq-order :
    {A C : Type 0} (key : A → ℕ × Uuid) (cs : Cursors C) (size fuel : ℕ) (rows : List A)
    → HasUniqueIds key rows
    → 0 < size
    → length (order_desc key rows) ≤ fuel
    → follow key (λ c. page key cs size c rows) fuel none ≡ order_desc key rows
follow-eq-order key cs zero fuel rows u h l = absurd (omega arith)
follow-eq-order key cs (suc size) fuel rows u h l =
    follow_rest key cs rows u size fuel none [] (order_desc key rows) refl refl l

module _ {A : Type 0} (key : A → ℕ × Uuid) where
  length-insert : (x : A) (ys : List A) → length (insert_desc key x ys) ≡ suc (length ys)
  length-insert x [] = refl
  length-insert x (y ∷ ys) = ground (arith, length-insert x ys)

  pub length-order : (xs : List A) → length (order_desc key xs) ≡ length xs
  length-order [] = refl
  length-order (x ∷ xs) = omega (arith, length-insert x (order_desc key xs), length-order xs)
