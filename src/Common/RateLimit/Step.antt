-- ===== src/Common/RateLimit/Step.antt =====
-- One request on a hash that the script wrote.
use colab.Prelude.{
  ℕ, suc, ◌+◌, ◌-◌, ◌*◌, ◌/◌, true, false, Bool-cases, ◌≡◌, refl, ◌∙◌, ap, subst, inl, inr, none,
  some, List, ◌∷◌, ltb, leb, if◌then◌else◌, arith,
}
use colab.Prelude.Int.{ℤ, pos, ◌+ℤ◌, ◌-ℤ◌, ltb_ℤ}
use colab.Common.RateLimit.{
  Rate, Bucket, stored, refilled, min_ℤ, lifetime, consumed, token_bucket, serve,
}

-- A hash that the script wrote at `now`, with `t` tokens.
abbrev pub written : ℕ → Rate → ℕ → ℕ → Bucket
written capacity rate now t = record {
  tokens = pos t;
  last_refill = now;
  expires_at = now + lifetime capacity rate;
}

-- The tokens that a request after `wait` finds.
abbrev pub found : ℕ → Rate → ℕ → ℕ → ℕ
found capacity rate t wait =
    if ltb wait (lifetime capacity rate)
    then (if ltb (t + wait * rate.num / rate.den) capacity
        then t + wait * rate.num / rate.den
        else capacity)
    else capacity

pub pos-sum : (a b : ℕ) → pos a +ℤ pos b ≡ pos (a + b)
unfolding ◌+ℤ◌
pos-sum a b = ground arith

min-pos : (a b : ℕ) → min_ℤ (pos a) (pos b) ≡ pos (if ltb b a then b else a)
min-pos a b = ground arith

refilled-wait :
    (rate : Rate) (now wait : ℕ) → refilled rate now (now + wait) ≡ pos (wait * rate.num / rate.den)
refilled-wait rate now wait =
    let later : leb now (now + wait) ≡ true = ground arith in
    let gap : now + wait - now ≡ wait = omega arith in rw (later, gap) refl

stored-live :
    (capacity : ℕ) (rate : Rate) (now t wait : ℕ)
    → ltb wait (lifetime capacity rate) ≡ true
    → stored capacity (now + wait) (some (written capacity rate now t)) ≡ (pos t, now)
stored-live capacity rate now t wait h = within (lifetime capacity rate) h
  where
    within :
        (n : ℕ)
        → ltb wait n ≡ true
        → ◌≡◌ {A = ℤ × ℕ}
            (if ltb (now + wait) (now + n) then (pos t, now) else (pos capacity, now + wait))
            (pos t, now)
    within n e = let on : ltb (now + wait) (now + n) ≡ true = ground (arith, e) in rw on refl

stored-expired :
    (capacity : ℕ) (rate : Rate) (now t wait : ℕ)
    → ltb wait (lifetime capacity rate) ≡ false
    → stored capacity (now + wait) (some (written capacity rate now t)) ≡ (pos capacity, now + wait)
stored-expired capacity rate now t wait h = past (lifetime capacity rate) h
  where
    past :
        (n : ℕ)
        → ltb wait n ≡ false
        → ◌≡◌ {A = ℤ × ℕ}
            (if ltb (now + wait) (now + n) then (pos t, now) else (pos capacity, now + wait))
            (pos capacity, now + wait)
    past n e = let off : ltb (now + wait) (now + n) ≡ false = ground (arith, e) in rw off refl

abbrev tokens_of : ℕ → Rate → ℕ → ℤ × ℕ → ℤ
tokens_of capacity rate now held = min_ℤ (pos capacity) (held.0 +ℤ refilled rate held.1 now)

full_stays :
    (capacity : ℕ) (rate : Rate) (now : ℕ)
    → tokens_of capacity rate now (pos capacity, now) ≡ pos capacity
full_stays capacity rate now =
    let here : now + 0 ≡ now = omega arith in
    let r =
      subst (λ n. refilled rate now n ≡ pos (0 * rate.num / rate.den)) here
        (refilled-wait rate now 0) in
    let off : ltb (capacity + 0 * rate.num / rate.den) capacity ≡ false = ground arith in
    rw (r, pos-sum, min-pos, off) refl

tokens-found :
    (capacity : ℕ) (rate : Rate) (now t wait : ℕ)
    → tokens_of capacity rate
        (now + wait)
        (stored capacity (now + wait) (some (written capacity rate now t)))
      ≡ pos (found capacity rate t wait)
tokens-found capacity rate now t wait = elim (Bool-cases (ltb wait (lifetime capacity rate))) [
  | inl live ↦
      rw (stored-live capacity rate now t wait live, live, refilled-wait, pos-sum, min-pos) refl
  | inr expired ↦ rw (stored-expired capacity rate now t wait expired, expired, full_stays) refl
]

-- A request after `wait` on a hash that the script wrote.
pub token_bucket-found :
    (capacity : ℕ) (rate : Rate) (now t wait : ℕ)
    → token_bucket capacity rate (now + wait) (some (written capacity rate now t))
      ≡ consumed capacity rate (now + wait) (pos (found capacity rate t wait))
unfolding token_bucket
token_bucket-found capacity rate now t wait =
    ap (λ k. consumed capacity rate (now + wait) k) (tokens-found capacity rate now t wait)

one_less : (k : ℕ) → pos (suc k) -ℤ pos 1 ≡ pos k
unfolding ◌-ℤ◌
one_less k = ground arith

consumed-suc :
    (capacity : ℕ) (rate : Rate) (now k : ℕ)
    → consumed capacity rate now (pos (suc k)) ≡ ((true, pos k), written capacity rate now k)
consumed-suc capacity rate now k =
    let on : ltb_ℤ (pos 0) (pos (suc k)) ≡ true = ground arith in rw (on, one_less) refl

module _ (capacity : ℕ) (rate : Rate) (waits : List ℕ) (now t wait : ℕ) where
  abbrev rest : ℕ → ℕ
  rest k = (serve capacity rate waits (now + wait) (some (written capacity rate (now + wait) k))).0

  pub serve-refused :
      found capacity rate t wait ≡ 0
      → (serve capacity rate (wait ∷ waits) now (some (written capacity rate now t))).0 ≡ rest 0
  unfolding serve
  serve-refused e = rw (token_bucket-found capacity rate now t wait, e) refl

  pub serve-allowed :
      (k : ℕ)
      → found capacity rate t wait ≡ suc k
      → (serve capacity rate (wait ∷ waits) now (some (written capacity rate now t))).0
        ≡ suc (rest k)
  unfolding serve
  serve-allowed k e =
      let one =
        token_bucket-found capacity rate now t wait
        ∙ ap (λ n. consumed capacity rate (now + wait) (pos n)) e
        ∙ consumed-suc capacity rate (now + wait) k in
      rw one refl

token_bucket-new :
    (capacity : ℕ) (rate : Rate) (now : ℕ)
    → token_bucket capacity rate now none ≡ consumed capacity rate now (pos capacity)
unfolding token_bucket
token_bucket-new capacity rate now =
    ap (λ k. consumed capacity rate now k) (full_stays capacity rate now)

found-full : (capacity : ℕ) (rate : Rate) (wait : ℕ) → found capacity rate capacity wait ≡ capacity
found-full capacity rate wait = elim (Bool-cases (ltb wait (lifetime capacity rate))) [
  | inl live ↦
      let off : ltb (capacity + wait * rate.num / rate.den) capacity ≡ false = ground arith in
      rw (live, off) refl
  | inr expired ↦ rw expired refl
]

-- A first request finds what it would find in a full bucket.
pub serve-new :
    (capacity : ℕ) (rate : Rate) (waits : List ℕ) (now wait : ℕ)
    → serve capacity rate (wait ∷ waits) now none
      ≡ serve capacity rate (wait ∷ waits) now (some (written capacity rate now capacity))
unfolding serve
serve-new capacity rate waits now wait =
    let new = token_bucket-new capacity rate (now + wait) in
    let old = token_bucket-found capacity rate now capacity wait in rw (new, old, found-full) refl
