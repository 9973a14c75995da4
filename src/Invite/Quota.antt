-- ===== src/Invite/Quota.antt =====
-- services/invite-svc/app/services/quota.py: how many invites a user may send in any seven days. Redis is
-- a parameter: the three commands on a sorted set that the script calls. Times are in milliseconds.
pub mod Window
pub mod Limit
use colab.Prelude.{
  ℕ, ◌+◌, ◌-◌, Bool, true, false, not, Option, none, some, List, [], ◌∷◌, ◌≡◌, ltb, leb, select,
  length, ◌==◌, if◌then◌else◌,
}
use colab.Prelude.Uuid.{Uuid}

-- ZREMRANGEBYSCORE from -inf, ZCARD and ZADD, with what Redis documents of them: a sorted set has each
-- member once, with its score.
pub record SortedSets {ℓ} (Z : Type ℓ) : Type ℓ where
  pub no_members : Z
  pub zremrangebyscore : ℕ → Z → Z
  pub zcard : Z → ℕ
  pub zadd : ℕ → Uuid → Z → Z
  pub members : Z → List (ℕ × Uuid)
  pub members-no_members : members no_members ≡ []
  pub members-zremrangebyscore :
      (cutoff : ℕ) (z : Z)
      → members (zremrangebyscore cutoff z) ≡ select (λ e. ltb cutoff e.0) (members z)
  pub zcard-members : (z : Z) → zcard z ≡ length (members z)
  pub members-zadd :
      (score : ℕ) (m : Uuid) (z : Z)
      → members (zadd score m z) ≡ (score, m) ∷ select (λ e. not (e.1 == m)) (members z)

-- 604800000, seven days
abbrev pub window_ms : ℕ
window_ms = 604_800_000

-- `_PREMIUM_LIMIT`
abbrev pub premium_limit : ℕ
premium_limit = 9_999_999

-- A key of Redis: what it holds, until the time it expires.
pub record Key {ℓ} (Z : Type ℓ) : Type ℓ where
  pub value : Z
  pub expires_at : ℕ

-- What billing-svc answers about `invites_per_week`: an error, null, or a number.
pub data Entitlement : Type 0 where
  unavailable unlimited : Entitlement
  limited : ℕ → Entitlement

-- `setex` for 300 seconds
abbrev cached_until : ℕ → ℕ → Option (Key ℕ)
cached_until now limit = some (record { value = limit; expires_at = now + 300_000 })

abbrev fetched : ℕ → ℕ → Entitlement → Option (Key ℕ) → ℕ × Option (Key ℕ)
fetched now free_quota unavailable cache = (free_quota, cache)
fetched now free_quota unlimited cache = (premium_limit, cached_until now premium_limit)
fetched now free_quota (limited n) cache = (n, cached_until now n)

-- `_get_invite_limit`: the limit and the cache; `free_quota` is free_invite_quota_per_week of app/config.py.
unfoldable pub get_invite_limit : ℕ → ℕ → Entitlement → Option (Key ℕ) → ℕ × Option (Key ℕ)
get_invite_limit now free_quota answer none = fetched now free_quota answer none
get_invite_limit now free_quota answer (some k) =
    if leb k.expires_at now then fetched now free_quota answer none else (k.value, some k)

module _ {ℓ} {Z : Type ℓ} (redis : SortedSets Z) where
  -- What a command finds under the key.
  abbrev pub found : ℕ → Option (Key Z) → Z
  found now none = redis.no_members
  found now (some k) = if leb k.expires_at now then redis.no_members else k.value

  -- Scores are times, so that a cutoff below 0 evicts nothing.
  abbrev pub evicted : ℕ → Z → Z
  evicted now z = if ltb now window_ms then z else redis.zremrangebyscore (now - window_ms) z

  -- `_QUOTA_LUA`: whether the send is recorded, the count, and the key.
  unfoldable pub quota_lua : ℕ → ℕ → Uuid → Option (Key Z) → (Bool × ℕ) × Option (Key Z)
  quota_lua now limit inv key =
      let z = evicted now (found now key) in
      let z' = redis.zadd now inv z in
      if ltb (redis.zcard z) limit
      then ((true, redis.zcard z'), some (record { value = z'; expires_at = now + window_ms }))
      else (
        (false, redis.zcard z),
        elim key [ none ↦ none | some k ↦ some (record k { value = z }) ],
      )

  -- The two keys of a user.
  pub record UserKeys : Type ℓ where
    pub limit_cache : Option (Key ℕ)
    pub quota : Option (Key Z)

  abbrev remaining_of : ℕ → Bool × ℕ → ℕ
  remaining_of limit (true, count) =
      if ltb limit premium_limit then limit - count else premium_limit
  remaining_of limit (false, count) = 0

  -- The two numbers are whether the invite may be sent and what remains of the quota.
  unfoldable pub check_and_increment_quota :
      ℕ → ℕ → Entitlement → Uuid → UserKeys → (Bool × ℕ) × UserKeys
  unfolding quota_lua
  check_and_increment_quota now free_quota answer invite keys =
      let (limit, cache) = get_invite_limit now free_quota answer keys.limit_cache in
      let (result, quota) = quota_lua now limit invite keys.quota in
      ((result.0, remaining_of limit result), record { limit_cache = cache; quota = quota })

  -- `invalidate_entitlement_cache`
  abbrev pub invalidate_entitlement_cache : UserKeys → UserKeys
  invalidate_entitlement_cache keys = record keys { limit_cache = none }
