-- ===== src/Invite/Quota/Window.antt =====
-- What the sorted set of a user holds: the allowed sends of the last seven days.
use colab.Prelude.{
  ℕ, ◌+◌, ◌-◌, ◌≤◌, ◌<◌, Bool, true, false, not, Bool-cases, Option, none, some, List, [], ◌∷◌, ◌≡◌,
  ◌≢◌, refl, sym, ap, ◌∙◌, subst, ltb, leb, select, length, ◌==◌, All, arith, inl, inr,
}
use colab.Prelude.Uuid.{Uuid}
use colab.Invite.Quota.{SortedSets, Key, window_ms, found, evicted, quota_lua}

-- Is a send inside the seven days that end now?
abbrev pub is_recent : ℕ → ℕ × Uuid → Bool
is_recent now e = ltb now (e.0 + window_ms)

abbrev pub recent : ℕ → List (ℕ × Uuid) → List (ℕ × Uuid)
recent now log = select (is_recent now) log

-- A request to send an invite: the time, the limit of that time and the new invite's id.
pub record Send : Type 0 where
  pub at : ℕ
  pub limit : ℕ
  pub invite : Uuid

pub recent_later :
    (now later : ℕ) (log : List (ℕ × Uuid))
    → now ≤ later
    → length (recent later log) ≤ length (recent now log)
recent_later now later [] h = omega arith
recent_later now later (e ∷ log) h = ground (arith, recent_later now later log h)

recent-recent :
    (now later : ℕ) (log : List (ℕ × Uuid))
    → now ≤ later
    → recent later (recent now log) ≡ recent later log
recent-recent now later [] h = refl
recent-recent now later (e ∷ log) h = ground (arith, recent-recent now later log h)

all_recent : (now : ℕ) (z : List (ℕ × Uuid)) → now < window_ms → recent now z ≡ z
all_recent now [] h = refl
all_recent now (e ∷ z) h = ground (arith, all_recent now z h)

cutoff_recent :
    (now : ℕ) (z : List (ℕ × Uuid))
    → window_ms ≤ now
    → select (λ e. ltb (now - window_ms) e.0) z ≡ recent now z
cutoff_recent now [] h = refl
cutoff_recent now (e ∷ z) h = ground (arith, cutoff_recent now z h)

old_none :
    (now end : ℕ) (log : List (ℕ × Uuid))
    → end ≤ now
    → All (λ e. e.0 + window_ms ≤ end) log
    → recent now log ≡ []
old_none now end [] h a = refl
old_none now end (e ∷ log) h a = ground (arith, old_none now end log h a.1)

abbrev pub IsNew : Uuid → List (ℕ × Uuid) → Type 0
IsNew m log = All (λ e. e.1 ≢ m) log

new_kept :
    (now : ℕ) (m : Uuid) (log : List (ℕ × Uuid))
    → IsNew m log
    → select (λ e. not (e.1 == m)) (recent now log) ≡ recent now log
new_kept now m [] h = refl
new_kept now m (e ∷ log) h = ground (arith, new_kept now m log h.1)

past_ends :
    (now : ℕ) (log : List (ℕ × Uuid))
    → All (λ e. e.0 ≤ now) log
    → All (λ e. e.0 + window_ms ≤ now + window_ms) log
past_ends now [] h = tt
past_ends now (e ∷ log) h = (omega (arith, h.0), past_ends now log h.1)

past_later :
    (now later : ℕ) (log : List (ℕ × Uuid))
    → now ≤ later
    → All (λ e. e.0 ≤ now) log
    → All (λ e. e.0 ≤ later) log
past_later now later [] h a = tt
past_later now later (e ∷ log) h a = (omega (arith, h, a.0), past_later now later log h a.1)

module _ {ℓ} {Z : Type ℓ} (redis : SortedSets Z) where
  -- The key and the sends that were allowed, the last one first.
  pub record Sends : Type ℓ where
    pub key : Option (Key Z)
    pub log : List (ℕ × Uuid)

  abbrev logged : Send → (Bool × ℕ) × Option (Key Z) → List (ℕ × Uuid) → Sends
  logged s ((true, count), key) log = record { key = key; log = (s.at, s.invite) ∷ log }
  logged s ((false, count), key) log = record { key = key; log = log }

  unfoldable pub send : Send → Sends → Sends
  send s st = logged s (quota_lua redis s.at s.limit s.invite st.key) st.log

  unfoldable pub send_all : List Send → Sends → Sends
  send_all [] st = st
  send_all (s ∷ rest) st = send_all rest (send s st)

  abbrev pub nothing_sent : Sends
  nothing_sent = record { key = none; log = [] }

  -- What the key holds of the allowed sends, and until when.
  abbrev pub IsKept : ℕ → List (ℕ × Uuid) → Option (Key Z) → Type 0
  IsKept now log none = recent now log ≡ []
  IsKept now log (some k) =
      (recent now (redis.members k.value) ≡ recent now log)
      × All (λ e. e.0 + window_ms ≤ k.expires_at) log

  pub record IsTracked (now : ℕ) (st : Sends) : Type ℓ where
    pub kept : IsKept now st.log st.key
    pub past : All (λ e. e.0 ≤ now) st.log

  evicted-recent :
      (now : ℕ) (z : Z) → redis.members (evicted redis now z) ≡ recent now (redis.members z)
  evicted-recent now z = elim (Bool-cases (ltb now window_ms)) [
    | inl early ↦ rw (early, all_recent now (redis.members z) (ground arith)) refl
    | inr late ↦
        rw (late, redis.members-zremrangebyscore (now - window_ms) z)
          (cutoff_recent now (redis.members z) (ground arith))
  ]

  found-recent :
      (now later : ℕ) (log : List (ℕ × Uuid)) (key : Option (Key Z))
      → now ≤ later
      → IsKept now log key
      → recent later (redis.members (found redis later key)) ≡ recent later log
  found-recent now later log none h k =
      rw redis.members-no_members (rw (sym (recent-recent now later log h), k) refl)
  found-recent now later log (some k) h kept = elim (Bool-cases (leb k.expires_at later)) [
    | inl over ↦
        rw (over, redis.members-no_members)
          (sym (old_none later k.expires_at log (ground arith) kept.1))
    | inr live ↦ rw live (
        sym (recent-recent now later (redis.members k.value) h)
        ∙ ap (recent later) kept.0
        ∙ recent-recent now later log h)
  ]

  -- After the eviction the set holds the allowed sends of the last seven days.
  set-recent :
      (now later : ℕ) (st : Sends)
      → now ≤ later
      → IsTracked now st
      → redis.members (evicted redis later (found redis later st.key)) ≡ recent later st.log
  set-recent now later st h t =
      evicted-recent later (found redis later st.key)
      ∙ found-recent now later st.log st.key h t.kept

  pub set_count :
      (now later : ℕ) (st : Sends)
      → now ≤ later
      → IsTracked now st
      → redis.zcard (evicted redis later (found redis later st.key)) ≡ length (recent later st.log)
  set_count now later st h t = redis.zcard-members _ ∙ ap length (set-recent now later st h t)

  -- The step, by the answer of the script.
  abbrev pub IsStep : ℕ → ℕ → Send → Sends → Type ℓ
  IsStep top now s st = IsTracked s.at (send s st) × length (recent s.at (send s st).log) ≤ top

  IsKept-denied :
      (now later : ℕ) (st : Sends)
      → now ≤ later
      → IsTracked now st
      → (key : Option (Key Z)) → st.key ≡ key
      → IsKept later st.log (elim key [
        | none ↦ none
        | some k ↦ some (record k { value = evicted redis later (found redis later st.key) })
      ])
  IsKept-denied now later st h t none e =
      sym (recent-recent now later st.log h)
      ∙ ap (recent later) (subst (IsKept now st.log) e t.kept)
  IsKept-denied now later st h t (some k) e = (
    ap (recent later) (set-recent now later st h t)
        ∙ recent-recent later later st.log (omega arith),
    (subst (IsKept now st.log) e t.kept).1,
  )

  pub send-IsStep :
      (top now : ℕ) (s : Send) (st : Sends)
      → now ≤ s.at
      → s.limit ≤ top
      → IsNew s.invite st.log
      → IsTracked now st
      → length (recent now st.log) ≤ top
      → IsStep top now s st
  unfolding send quota_lua
  send-IsStep top now s st h l new t b =
      elim (Bool-cases (ltb (length (recent s.at st.log)) s.limit)) [
        | inl room ↦
            rw (set_count now s.at st h t, room)
              (
                record {
                  kept = (
                    rw
                        (
                          redis.members-zadd s.at s.invite
                              (evicted redis s.at (found redis s.at st.key)),
                          set-recent now s.at st h t,
                          new_kept s.at s.invite st.log new,
                        )
                        (rw (recent-recent s.at s.at st.log (omega arith)) refl),
                    (omega arith, past_ends s.at st.log (past_later now s.at st.log h t.past)),
                  );
                  past = (omega arith, past_later now s.at st.log h t.past);
                },
                ground arith,
              )
        | inr full ↦
            rw (set_count now s.at st h t, full)
              (
                record {
                  kept = IsKept-denied now s.at st h t st.key refl;
                  past = past_later now s.at st.log h t.past;
                },
                omega (arith, recent_later now s.at st.log h, b),
              )
      ]
