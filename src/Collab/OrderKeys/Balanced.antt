-- ===== src/Collab/OrderKeys/Balanced.antt =====
-- `_generate_balanced_keys`: how many tasks it can order.
use colab.Prelude.{
  ℕ, zero, suc, ◌+◌, ◌≤◌, ◌<◌, ◌==◌, Bool, true, false, ◌&&◌, ◌≡◌, refl, subst, List, [], ◌∷◌, ltb,
  leb, Bool-cases, inl, inr, arith,
}
use native.Mathlib.Nat.{div-eq_of_lt}
use colab.Collab.OrderKeys.{step, keys_from, generate_balanced_keys}

abbrev pub ascending : List ℕ → Bool
ascending [] = true
ascending (x ∷ []) = true
ascending (x ∷ y ∷ r) = ltb x y && ascending (y ∷ r)

-- Do the keys of up to n tasks ascend?
abbrev all_ascend : ℕ → Bool
unfolding generate_balanced_keys
all_ascend zero = true
all_ascend (suc n) = ascending (generate_balanced_keys (suc n)) && all_ascend n

few_ascend : all_ascend 25 ≡ true
unfolding all_ascend
few_ascend = refl

both : {a b : Bool} → (a && b) ≡ true → (a ≡ true) × (b ≡ true)
both {a} {b} h = ground arith

and_false : (a b : Bool) → b ≡ false → (a && b) ≡ false
and_false a b h = ground arith

ascend_below : (m n : ℕ) → all_ascend m ≡ true → n ≤ m → ascending (generate_balanced_keys n) ≡ true
unfolding generate_balanced_keys
ascend_below zero zero h l = refl
ascend_below zero (suc n) h l = absurd (omega arith)
ascend_below (suc m) n h l =
    let (last, others) = both h in
    elim (Bool-cases (leb n m)) [
      | inl below ↦ ascend_below m n others (ground arith)
      | inr top ↦
          let same : suc m ≡ n = ground arith in
          subst (λ k. ascending (generate_balanced_keys k) ≡ true) same last
    ]

many_clash :
    (n i count : ℕ)
    → step n ≡ 1
    → 27 ≤ i + count
    → 2 ≤ count
    → ascending (keys_from n i count) ≡ false
unfolding keys_from
many_clash n i zero e l c = absurd (omega arith)
many_clash n i (suc zero) e l c = absurd (omega arith)
many_clash n i (suc (suc zero)) e l c = rw e (ground arith)
many_clash n i (suc (suc (suc count))) e l c =
    and_false _ _ (many_clash n (suc i) (suc (suc count)) e (omega (arith, l)) (omega arith))

-- The keys that are made for n tasks are in strictly ascending order exactly when n is at most 25.
pub generate_balanced_keys-ascending : (n : ℕ) → ascending (generate_balanced_keys n) ≡ leb n 25
unfolding generate_balanced_keys
generate_balanced_keys-ascending n = elim (Bool-cases (leb n 25)) [
  | inl few ↦ rw few (ascend_below 25 n few_ascend (ground arith))
  | inr many ↦
      let nonzero : (n == 0) ≡ false = ground arith in
      let below : 26 < n + 1 = ground arith in
      rw (many, nonzero)
        (many_clash n 1 n (rw (div-eq_of_lt below) refl) (ground arith) (ground arith))
]
