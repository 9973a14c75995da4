-- ===== src/Common/RateLimit/Starved.antt =====
-- Requests that come faster than the refill rate.
use colab.Prelude.{
  ℕ, zero, suc, ◌+◌, ◌*◌, ◌<◌, ◌≤◌, min, true, Bool-cases, ◌≡◌, ◌∙◌, ap, inl, inr, none, some, List,
  [], ◌∷◌, ltb, length, All, if◌then◌else◌, arith,
}
use native.Mathlib.Nat.{mul-le-mul_right, div-eq_of_lt}
use colab.Common.RateLimit.{Rate, lifetime, serve}
use colab.Common.RateLimit.Bound.{full_again}
use colab.Common.RateLimit.Step.{written, found, serve-refused, serve-allowed, serve-new}

module _ (capacity : ℕ) (rate : Rate) where
  -- Each wait is shorter than the time that one token takes.
  abbrev pub IsFast : List ℕ → Type 0
  IsFast = All (λ w. w * rate.num < rate.den)

  not_expired :
      (w : ℕ)
      → 0 < capacity
      → 0 < rate.num
      → w * rate.num < rate.den
      → ltb w (lifetime capacity rate) ≡ true
  not_expired w c n h = elim (Bool-cases (ltb w (lifetime capacity rate))) [
    | inl live ↦ live
    | inr expired ↦
        let full = full_again capacity rate n w expired in
        let one : 1 ≤ capacity = c in
        let more = mul-le-mul_right rate.den one in absurd (omega (arith, full, more, h))
  ]

  under : (t : ℕ) → t ≤ capacity → (if ltb (t + 0) capacity then t + 0 else capacity) ≡ t
  under t le = ground (arith, le)

  found-fast :
      (t w : ℕ)
      → t ≤ capacity
      → 0 < capacity
      → 0 < rate.num
      → w * rate.num < rate.den
      → found capacity rate t w ≡ t
  found-fast t w le c n h = rw (not_expired w c n h, div-eq_of_lt h) (under t le)

  serve-fast :
      (waits : List ℕ) (now t : ℕ)
      → 0 < capacity
      → 0 < rate.num
      → IsFast waits
      → t ≤ capacity
      → (serve capacity rate waits now (some (written capacity rate now t))).0
        ≡ min t (length waits)
  unfolding serve
  serve-fast [] now t c n fast le = omega arith
  serve-fast (w ∷ ws) now zero c n fast le =
      rw (serve-refused capacity rate ws now 0 w (found-fast 0 w le c n fast.0))
        (omega (arith, serve-fast ws (now + w) 0 c n fast.1 le))
  serve-fast (w ∷ ws) now (suc k) c n fast le =
      rw (serve-allowed capacity rate ws now (suc k) w k (found-fast (suc k) w le c n fast.0))
        (omega (arith, serve-fast ws (now + w) k c n fast.1 (omega (arith, le))))

-- Where every wait is shorter than the refill time of one token, the bucket refills nothing: of all the
-- requests, however long they go on, the first `capacity` may go on, and no other.
pub serve-starved :
    (capacity : ℕ) (rate : Rate) (waits : List ℕ) (now : ℕ)
    → 0 < capacity
    → 0 < rate.num
    → IsFast capacity rate waits
    → (serve capacity rate waits now none).0 ≡ min capacity (length waits)
unfolding serve
serve-starved capacity rate [] now c n fast = omega arith
serve-starved capacity rate (w ∷ ws) now c n fast =
    ap (λ r. r.0) (serve-new capacity rate ws now w)
    ∙ serve-fast capacity rate (w ∷ ws) now capacity c n fast (omega arith)
