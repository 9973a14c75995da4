-- ===== src/Common/RateLimit/Bound.antt =====
-- How many requests a bucket lets through, at most.
use colab.Prelude.{
  ℕ, zero, suc, ◌+◌, ◌-◌, ◌*◌, ◌/◌, ◌≤◌, ◌<◌, false, Bool-cases, ◌≡◌, refl, sym, subst, inl, inr,
  none, some, List, [], ◌∷◌, ltb, if◌then◌else◌, arith,
}
use native.Mathlib.Nat.{mul-le-mul_right, div-mul-le_self, lt-div-mul-add}
use colab.Common.RateLimit.{Rate, lifetime, serve}
use colab.Common.RateLimit.Step.{written, found, serve-refused, serve-allowed, serve-new}

abbrev pub sum : List ℕ → ℕ
sum [] = 0
sum (w ∷ ws) = w + sum ws

past_life : (n wait : ℕ) → ltb wait (n + 10) ≡ false → n ≤ wait
past_life n wait h = ground (arith, h)

module _ (capacity : ℕ) (rate : Rate) (rate_pos : 0 < rate.num) where
  -- A hash expires when its bucket is full again.
  pub full_again :
      (wait : ℕ) → ltb wait (lifetime capacity rate) ≡ false → capacity * rate.den ≤ wait * rate.num
  full_again wait h =
      let life = (capacity * rate.den + (rate.num - 1)) / rate.num in
      let up = lt-div-mul-add {a = capacity * rate.den + (rate.num - 1)} {b = rate.num} rate_pos in
      let more = mul-le-mul_right rate.num (past_life life wait h) in
      omega (arith, up, more, rate_pos)

  sum_le :
      (t wait : ℕ) → (t + wait * rate.num / rate.den) * rate.den ≤ t * rate.den + wait * rate.num
  sum_le t wait = omega (arith, div-mul-le_self (wait * rate.num) rate.den)

  capped : (a : ℕ) → (if ltb a capacity then a else capacity) ≤ a
  capped a = ground arith

  found_le : (t wait : ℕ) → found capacity rate t wait * rate.den ≤ t * rate.den + wait * rate.num
  found_le t wait = elim (Bool-cases (ltb wait (lifetime capacity rate))) [
    | inl live ↦ rw live (
        omega (
          arith,
          mul-le-mul_right rate.den (capped (t + wait * rate.num / rate.den)),
          sum_le t wait,
        ))
    | inr expired ↦ rw expired (omega (arith, full_again wait expired))
  ]

  -- Each request that may go on takes one of the tokens that time has paid for.
  pub serve_le :
      (waits : List ℕ) (now t : ℕ)
      → (serve capacity rate waits now (some (written capacity rate now t))).0 * rate.den
        ≤ t * rate.den + sum waits * rate.num
  unfolding serve
  serve_le [] now t = omega arith
  serve_le (w ∷ ws) now t = cases (λ k. serve_le ws (now + w) k) (found capacity rate t w) refl
    where
      cases :
          ((k : ℕ)
            → (serve capacity rate ws (now + w) (some (written capacity rate (now + w) k))).0
                * rate.den
              ≤ k * rate.den + sum ws * rate.num)
          → (n : ℕ) → found capacity rate t w ≡ n
          → (serve capacity rate (w ∷ ws) now (some (written capacity rate now t))).0 * rate.den
            ≤ t * rate.den + (w + sum ws) * rate.num
      cases rest zero e = rw (serve-refused capacity rate ws now t w e) (omega (arith, rest 0))
      cases rest (suc k) e =
          let paid = rw e at (found_le t w) in
          rw (serve-allowed capacity rate ws now t w k e) (omega (arith, rest k, paid))

-- However requests on one key come, those that may go on are at most the capacity and the tokens that
-- the whole time refills, `capacity + refill_per_sec * elapsed`.
pub serve-bounded :
    (capacity : ℕ) (rate : Rate) (waits : List ℕ) (now : ℕ)
    → 0 < rate.num
    → (serve capacity rate waits now none).0 * rate.den ≤ capacity * rate.den + sum waits * rate.num
unfolding serve
serve-bounded capacity rate [] now h = omega arith
serve-bounded capacity rate (w ∷ ws) now h =
    subst (λ r. r.0 * rate.den ≤ capacity * rate.den + (w + sum ws) * rate.num)
      (sym (serve-new capacity rate ws now w)) (serve_le capacity rate h (w ∷ ws) now capacity)
