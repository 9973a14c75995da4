-- ===== src/Invite/Quota/Limit.antt =====
-- No more invites than the limit in any seven days.
use colab.Prelude.{
  ℕ, ◌≤◌, Bool-cases, Option, List, [], ◌∷◌, ◌≡◌, ◌≢◌, refl, ltb, length, All, arith, inl, inr,
}
use colab.Prelude.Uuid.{Uuid}
use colab.Invite.Quota.{
  SortedSets, Key, found, evicted, quota_lua, Entitlement, get_invite_limit,
  check_and_increment_quota, UserKeys,
}
use colab.Invite.Quota.Window.{
  Send, Sends, recent, recent_later, send, send_all, nothing_sent, IsNew, IsTracked, send-IsStep,
  set_count,
}

-- Requests one after the other, whose limits are at most `top` and whose invites are new.
abbrev pub IsSequence : ℕ → ℕ → List Send → Type 0
IsSequence top now [] = Unit
IsSequence top now (s ∷ rest) =
    (now ≤ s.at) × (s.limit ≤ top) × All (λ r. s.invite ≢ r.invite) rest × IsSequence top s.at rest

abbrev pub last_at : ℕ → List Send → ℕ
last_at now [] = now
last_at now (s ∷ rest) = last_at s.at rest

module _ {ℓ} {Z : Type ℓ} (redis : SortedSets Z) where
  abbrev AreNew : List Send → List (ℕ × Uuid) → Type 0
  AreNew sends log = All (λ s. IsNew s.invite log) sends

  new_cons :
      (s : Send) (log : List (ℕ × Uuid)) (rest : List Send)
      → All (λ r. s.invite ≢ r.invite) rest
      → AreNew rest log
      → AreNew rest ((s.at, s.invite) ∷ log)
  new_cons s log [] d n = tt
  new_cons s log (r ∷ rest) d n = ((d.0, n.0), new_cons s log rest d.1 n.1)

  still_new :
      (s : Send) (st : Sends redis) (rest : List Send)
      → All (λ r. s.invite ≢ r.invite) rest
      → AreNew rest st.log
      → AreNew rest (send redis s st).log
  unfolding send quota_lua
  still_new s st rest d n =
      elim (Bool-cases (ltb (redis.zcard (evicted redis s.at (found redis s.at st.key))) s.limit)) [
        | inl room ↦ rw room (new_cons s st.log rest d n)
        | inr full ↦ rw full n
      ]

  send_all-bounded :
      (top now : ℕ) (sends : List Send) (st : Sends redis)
      → IsSequence top now sends
      → AreNew sends st.log
      → IsTracked redis now st
      → length (recent now st.log) ≤ top
      → IsTracked redis (last_at now sends) (send_all redis sends st)
        × length (recent (last_at now sends) (send_all redis sends st).log) ≤ top
  unfolding send_all
  send_all-bounded top now [] st q n t b = (t, b)
  send_all-bounded top now (s ∷ rest) st q n t b =
      let (h, l, d, q') = q in
      let (t', b') = send-IsStep redis top now s st h l n.0 t b in
      send_all-bounded top s.at rest (send redis s st) q' (still_new s st rest d n.1) t' b'

  none_AreNew : (sends : List Send) → AreNew sends []
  none_AreNew [] = tt
  none_AreNew (s ∷ rest) = (tt, none_AreNew rest)

module _ {Z : Type 0} (redis : SortedSets Z) (top now : ℕ) (sends : List Send) where
  run-bounded :
      IsSequence top now sends
      → IsTracked redis (last_at now sends) (send_all redis sends (nothing_sent redis))
        × length (recent (last_at now sends) (send_all redis sends (nothing_sent redis)).log) ≤ top
  run-bounded q =
      send_all-bounded redis top now sends (nothing_sent redis) q (none_AreNew redis sends)
        (record { kept = refl; past = tt }) (omega arith)

-- For any requests of a user in the order of time, each with a new invite and a limit of at most
-- `top`: at the last one, and at any time after it, at most `top` allowed sends lie in the last
-- seven days. The key's expiry is part of the run.
pub at_most_limit :
    {Z : Type 0} (redis : SortedSets Z) (top now later : ℕ) (sends : List Send)
    → IsSequence top now sends
    → last_at now sends ≤ later
    → length (recent later (send_all redis sends (nothing_sent redis)).log) ≤ top
at_most_limit redis top now later sends q h = omega (
  arith,
  recent_later (last_at now sends) later (send_all redis sends (nothing_sent redis)).log h,
  (run-bounded redis top now sends q).1,
)

-- After any requests of a user in the order of time, each with a new invite, a further one is allowed
-- exactly when fewer sends than its limit were allowed in the last seven days; the limit is the one
-- that the cache or billing-svc gives.
pub allowed-iff-room :
    {Z : Type 0} (redis : SortedSets Z) (top now later free_quota : ℕ) (answer : Entitlement)
    (cache : Option (Key ℕ)) (invite : Uuid) (sends : List Send)
    → IsSequence top now sends
    → last_at now sends ≤ later
    → let st = send_all redis sends (nothing_sent redis) in
      let keys : UserKeys redis = record { limit_cache = cache; quota = st.key } in
      (check_and_increment_quota redis later free_quota answer invite keys).0.0
      ≡ ltb (length (recent later st.log)) (get_invite_limit later free_quota answer cache).0
unfolding check_and_increment_quota quota_lua
allowed-iff-room redis top now later free_quota answer cache invite sends q h =
    let st = send_all redis sends (nothing_sent redis) in
    let limit = (get_invite_limit later free_quota answer cache).0 in
    let count =
      set_count redis (last_at now sends) later st h (run-bounded redis top now sends q).0 in
    elim (Bool-cases (ltb (length (recent later st.log)) limit)) [
      | inl room ↦ rw (count, room) refl
      | inr full ↦ rw (count, full) refl
    ]
