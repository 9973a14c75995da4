-- ===== src/Invite/Invites/Expiry/Ends.antt =====
-- The loop over the batches ends, and leaves no invite that should have expired.
use colab.Prelude.{
  ℕ, zero, suc, ◌+◌, ◌≤◌, ◌<◌, Bool, true, false, ◌&&◌, Bool-cases, ◌≡◌, refl, subst, inl, inr,
  some, List, [], ◌∷◌, ltb, map, length, select, update_where, All, arith,
}
use colab.Prelude.Uuid.{Uuid}
use colab.Invite.Invites.{responded}
use colab.Invite.Invites.Rows.{expired, CollabInvite, InviteDb, is_pending}
use colab.Invite.Invites.Expiry.{batch_size, limit, is_stale, mem_id, expire_batch, run_expire_all}

abbrev pub pending_count : List CollabInvite → ℕ
pending_count xs = length (select (λ i. is_pending i.status) xs)

abbrev is_marked : List Uuid → CollabInvite → Bool
is_marked ids i = is_pending i.status && mem_id ids i.id

abbrev expire_ids : List Uuid → ℕ → List CollabInvite → List CollabInvite
expire_ids ids now xs = update_where (λ i. mem_id ids i.id) (responded expired now) xs

abbrev HasIds : List Uuid → List CollabInvite → Type 0
HasIds ids rows = All (λ r. mem_id ids r.id ≡ true) rows

HasIds-cons :
    (k : Uuid) (ids : List Uuid) (rows : List CollabInvite)
    → HasIds ids rows
    → HasIds (k ∷ ids) rows
HasIds-cons k ids [] h = tt
HasIds-cons k ids (r ∷ rows) h = (ground (arith, h.0), HasIds-cons k ids rows h.1)

own_ids : (rows : List CollabInvite) → HasIds (map (λ r. r.id) rows) rows
own_ids [] = tt
own_ids (r ∷ rows) = (ground arith, HasIds-cons r.id (map (λ s. s.id) rows) rows (own_ids rows))

marked_leave :
    (ids : List Uuid) (now : ℕ) (xs : List CollabInvite)
    → pending_count (expire_ids ids now xs) + length (select (is_marked ids) xs) ≡ pending_count xs
marked_leave ids now [] = refl
marked_leave ids now (x ∷ xs) = ground (arith, marked_leave ids now xs)

full_limit {ℓ} : {A : Type ℓ} (n : ℕ) (xs : List A) → length (limit n xs) < n → limit n xs ≡ xs
full_limit zero xs h = absurd (omega arith)
full_limit (suc n) [] h = refl
full_limit (suc n) (x ∷ xs) h = rw (full_limit n xs (omega (arith, h))) refl

not_less : (a b : ℕ) → ltb a b ≡ false → b ≤ a
not_less a b h = ground arith

is_less : (a b : ℕ) → ltb a b ≡ true → a < b
is_less a b h = ground arith

module _ (locked : Uuid → Bool) where
  batch_is_marked :
      (n now : ℕ) (ids : List Uuid) (xs : List CollabInvite)
      → HasIds ids (limit n (select (is_stale locked now) xs))
      → length (limit n (select (is_stale locked now) xs)) ≤ length (select (is_marked ids) xs)
  batch_is_marked zero now ids xs h = omega arith
  batch_is_marked (suc n) now ids [] h = omega arith
  batch_is_marked (suc n) now ids (x ∷ xs) h = elim (Bool-cases (is_stale locked now x)) [
    | inl stale ↦
        let (mine, others) = rw stale at h in
        let marked : is_marked ids x ≡ true = ground (arith, stale, mine) in
        rw (stale, marked) (omega (arith, batch_is_marked n now ids xs others))
    | inr fresh ↦
        let more = batch_is_marked (suc n) now ids xs (rw fresh at h) in
        rw fresh (ground (arith, more))
  ]

  stale_gone :
      (now : ℕ) (ids : List Uuid) (xs : List CollabInvite)
      → HasIds ids (select (is_stale locked now) xs)
      → All (λ i. is_stale locked now i ≡ false) (expire_ids ids now xs)
  stale_gone now ids [] h = tt
  stale_gone now ids (x ∷ xs) h = elim (Bool-cases (is_stale locked now x)) [
    | inl stale ↦
        let (mine, others) = rw stale at h in (rw mine (ground arith), stale_gone now ids xs others)
    | inr fresh ↦ (ground arith, stale_gone now ids xs (rw fresh at h))
  ]

  -- One batch: as many pending rows less as it counts, and if it is not full no stale row is left.
  batch_shrinks :
      (now : ℕ) (db : InviteDb)
      → pending_count (expire_batch locked now db).1.invites + (expire_batch locked now db).0
        ≤ pending_count db.invites
  unfolding expire_batch
  batch_shrinks now db =
      let rows = limit batch_size (select (is_stale locked now) db.invites) in
      let ids = map (λ r. r.id) rows in
      omega (
        arith,
        marked_leave ids now db.invites,
        batch_is_marked batch_size now ids db.invites (own_ids rows),
      )

  batch_clears :
      (now : ℕ) (db : InviteDb)
      → (expire_batch locked now db).0 < batch_size
      → All (λ i. is_stale locked now i ≡ false) (expire_batch locked now db).1.invites
  unfolding expire_batch
  batch_clears now db h =
      let rows = limit batch_size (select (is_stale locked now) db.invites) in
      let all = full_limit batch_size (select (is_stale locked now) db.invites) h in
      stale_gone now (map (λ r. r.id) rows) db.invites
        (subst (λ l. HasIds (map (λ r. r.id) rows) l) all (own_ids rows))

  -- What the loop leaves: the total, the time of the last batch and the tables.
  pub record Cleared (total : ℕ) (db : InviteDb) (n t : ℕ) (after : InviteDb) : Type 0 where
    pub none_stale : All (λ i. is_stale locked t i ≡ false) after.invites
    pub counted : n + pending_count after.invites ≤ total + pending_count db.invites

  loop-ends :
      (clock : ℕ → ℕ) (fuel k total : ℕ) (db : InviteDb)
      → pending_count db.invites < fuel
      → (n : ℕ) × (t : ℕ) × (after : InviteDb) × run_expire_all locked clock fuel k total db
          ≡ some ((n, t), after)
        × Cleared total db n t after
  unfolding run_expire_all
  loop-ends clock zero k total db h = absurd (omega arith)
  loop-ends clock (suc fuel) k total db h =
      let now = clock k in
      let count = (expire_batch locked now db).0 in
      let after = (expire_batch locked now db).1 in
      let less = batch_shrinks now db in
      elim (Bool-cases (ltb count batch_size)) [
        | inl last ↦ (
          total + count,
          now,
          after,
          rw last refl,
          record {
            none_stale = batch_clears now db (is_less count batch_size last);
            counted = omega (arith, less);
          },
        )
        | inr full ↦
            let (n, t, end, e, c) =
              loop-ends clock fuel (suc k) (total + count) after
                (omega (arith, less, not_less count batch_size full, h)) in
            (
              n,
              t,
              end,
              rw full e,
              record { none_stale = c.none_stale; counted = omega (arith, less, c.counted) },
            )
      ]

-- The loop that expires invites ends, after at most one batch more than there are pending invites: it
-- returns the number it expired, with at least as many pending invites less; then no pending invite
-- whose time had come when the last batch read the clock is left, but those that were locked.
pub run_expire_all-ends :
    (locked : Uuid → Bool) (clock : ℕ → ℕ) (fuel : ℕ) (db : InviteDb)
    → pending_count db.invites < fuel
    → (n : ℕ) × (t : ℕ) × (after : InviteDb) × run_expire_all locked clock fuel 0 0 db
        ≡ some ((n, t), after)
      × All (λ i. is_stale locked t i ≡ false) after.invites
      × n + pending_count after.invites ≤ pending_count db.invites
run_expire_all-ends locked clock fuel db h =
    let (n, t, after, e, c) = loop-ends locked clock fuel 0 0 db h in
    (n, t, after, e, c.none_stale, omega (arith, c.counted))
