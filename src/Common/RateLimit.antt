-- ===== src/Common/RateLimit.antt =====
-- packages/colab_common/src/colab_common/rate_limit.py: the token bucket that Redis runs as one script.
-- A time is in seconds. `refill_per_sec` is the fraction `num / den`, where the script has a float.
pub mod Step
pub mod Bound
pub mod Starved
use colab.Prelude.{
  ℕ, suc, ◌+◌, ◌-◌, ◌*◌, ◌/◌, String, Bool, true, false, Option, none, some, List, [], ◌∷◌, ltb,
  leb, str_eq, if◌then◌else◌,
}
use colab.Prelude.Int.{ℤ, pos, ◌+ℤ◌, ◌-ℤ◌, neg, ltb_ℤ}

pub record Rate : Type 0 where
  pub num : ℕ
  pub den : ℕ

-- The hash at a key, and when it expires.
pub record Bucket : Type 0 where
  pub tokens : ℤ
  pub last_refill : ℕ
  pub expires_at : ℕ

-- `tonumber(bucket[1]) or capacity` and `tonumber(bucket[2]) or now`: no hash, or an expired one.
abbrev pub stored : ℕ → ℕ → Option Bucket → ℤ × ℕ
stored capacity now none = (pos capacity, now)
stored capacity now (some b) =
    if ltb now b.expires_at then (b.tokens, b.last_refill) else (pos capacity, now)

-- `math.floor(elapsed * refill_per_sec)`, also where the clock went back.
abbrev pub refilled : Rate → ℕ → ℕ → ℤ
refilled rate last now =
    if leb last now
    then pos ((now - last) * rate.num / rate.den)
    else neg (pos (((last - now) * rate.num + (rate.den - 1)) / rate.den))

abbrev pub min_ℤ : ℤ → ℤ → ℤ
min_ℤ a b = if ltb_ℤ b a then b else a

-- `math.ceil(capacity / refill_per_sec) + 10`
abbrev pub lifetime : ℕ → Rate → ℕ
lifetime capacity rate = (capacity * rate.den + (rate.num - 1)) / rate.num + 10

abbrev pub consumed : ℕ → Rate → ℕ → ℤ → (Bool × ℤ) × Bucket
consumed capacity rate now tokens =
    let put : ℤ → Bucket =
      λ t. record { tokens = t; last_refill = now; expires_at = now + lifetime capacity rate } in
    if ltb_ℤ (pos 0) tokens
    then ((true, tokens -ℤ pos 1), put (tokens -ℤ pos 1))
    else ((false, tokens), put tokens)

-- `_TOKEN_BUCKET_LUA`: whether the request may go on, the tokens that are left, and the new hash.
unfoldable pub token_bucket : ℕ → Rate → ℕ → Option Bucket → (Bool × ℤ) × Bucket
token_bucket capacity rate now bucket =
    let (tokens, last) = stored capacity now bucket in
    consumed capacity rate now (min_ℤ (pos capacity) (tokens +ℤ refilled rate last now))

abbrev pub Buckets : Type 0
Buckets = String → Option Bucket

unfoldable pub check_rate_limit : String → ℕ → Rate → ℕ → Buckets → (Bool × ℤ) × Buckets
unfolding token_bucket
check_rate_limit key capacity rate now store =
    let (answer, bucket) = token_bucket capacity rate now (store key) in
    (answer, λ k. if str_eq k key then some bucket else store k)

-- RateLimitError with its `retry_after`, where `some`.
unfoldable pub enforce_rate_limit : String → ℕ → Rate → ℕ → ℕ → Buckets → Option ℕ × Buckets
unfolding check_rate_limit
enforce_rate_limit key capacity rate retry_after now store =
    let ((allowed, left), after) = check_rate_limit key capacity rate now store in
    (if allowed then none else some retry_after, after)

-- Requests on one key, each with its wait after the one before: how many may go on, and what is stored.
unfoldable pub serve : ℕ → Rate → List ℕ → ℕ → Option Bucket → ℕ × Option Bucket
unfolding token_bucket
serve capacity rate [] now bucket = (0, bucket)
serve capacity rate (wait ∷ waits) now bucket =
    let (answer, after) = token_bucket capacity rate (now + wait) bucket in
    let (n, last) = serve capacity rate waits (now + wait) (some after) in
    ((if answer.0 then suc n else n), last)
