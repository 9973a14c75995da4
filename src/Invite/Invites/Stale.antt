-- ===== src/Invite/Invites/Stale.antt =====
-- The rows that a batch of the expiry worker takes were pending.
use colab.Prelude.{
  ℕ, zero, suc, Bool, true, false, ◌||◌, Bool-cases, ◌≡◌, ◌≢◌, refl, sym, inl, inr, List, [], ◌∷◌,
  ◌==◌, map, select, All, All-map, arith,
}
use colab.Prelude.Uuid.{Uuid}
use colab.Invite.Invites.Changes.{IsBacked, OnPending, answered, Change, UniqueIds, differ, same_id}
use colab.Invite.Invites.Expiry.{batch_size, limit, is_stale, mem_id, expired_event, expire_batch}
use colab.Invite.Invites.Rows.{expired, CollabInvite, InviteDb, is_pending}

-- The rows that a batch takes were pending.
module _ (locked : Uuid → Bool) (now : ℕ) where
  abbrev MarksPending : List CollabInvite → CollabInvite → Type 0
  MarksPending xs r = OnPending (λ x. r.id == x.id) xs

  select-ids :
      (k : Uuid) (xs : List CollabInvite)
      → All (λ y. k ≢ y.id) xs
      → All (λ y. k ≢ y.id) (select (is_stale locked now) xs)
  select-ids k [] h = tt
  select-ids k (x ∷ xs) h = elim (Bool-cases (is_stale locked now x)) [
    | inl hit ↦ rw hit (h.0, select-ids k xs h.1)
    | inr miss ↦ rw miss (select-ids k xs h.1)
  ]

  also_first :
      (x : CollabInvite) (xs rows : List CollabInvite)
      → All (λ y. x.id ≢ y.id) rows
      → All (MarksPending xs) rows
      → All (MarksPending (x ∷ xs)) rows
  also_first x xs [] n h = tt
  also_first x xs (r ∷ rows) n h =
      ((λ e. absurd (n.0 (sym (same_id x.id r e))), h.0), also_first x xs rows n.1 h.1)

  free_of :
      (x : CollabInvite) (xs : List CollabInvite) → All (λ y. x.id ≢ y.id) xs → MarksPending xs x
  free_of x xs =
      All-map (λ y. x.id ≢ y.id) (λ y. x.id == y.id ≡ true → is_pending y.status ≡ true) xs
        (λ y n e. absurd (n (same_id y.id x e)))

  no_rows : (xs : List CollabInvite) → OnPending (λ _. false) xs
  no_rows [] = tt
  no_rows (x ∷ xs) = ((λ e. absurd (differ e refl)), no_rows xs)

  stale_pending : (x : CollabInvite) → is_stale locked now x ≡ true → is_pending x.status ≡ true
  stale_pending x h = ground (arith, h)

  select-pending :
      (xs : List CollabInvite)
      → UniqueIds xs
      → All (MarksPending xs) (select (is_stale locked now) xs)
  select-pending [] u = tt
  select-pending (x ∷ xs) u =
      let others =
        also_first x xs (select (is_stale locked now) xs) (select-ids x.id xs u.0)
          (select-pending xs u.1) in
      elim (Bool-cases (is_stale locked now x)) [
        | inl hit ↦ rw hit ((λ _. stale_pending x hit, free_of x xs u.0), others)
        | inr miss ↦ rw miss others
      ]

  All-limit :
      (P : CollabInvite → Type 0) (n : ℕ) (xs : List CollabInvite) → All P xs → All P (limit n xs)
  All-limit P zero xs h = tt
  All-limit P (suc n) [] h = tt
  All-limit P (suc n) (x ∷ xs) h = (h.0, All-limit P n xs h.1)

  either_pending :
      (p q : CollabInvite → Bool) (xs : List CollabInvite)
      → OnPending p xs
      → OnPending q xs
      → OnPending (λ x. p x || q x) xs
  either_pending p q [] h k = tt
  either_pending p q (x ∷ xs) h k = (ground (arith, h.0, k.0), either_pending p q xs h.1 k.1)

  ids_pending :
      (xs rows : List CollabInvite)
      → All (MarksPending xs) rows
      → OnPending (λ x. mem_id (map (λ r. r.id) rows) x.id) xs
  ids_pending xs [] h = no_rows xs
  ids_pending xs (r ∷ rows) h =
      either_pending (λ x. r.id == x.id) (λ x. mem_id (map (λ r. r.id) rows) x.id) xs h.0
        (ids_pending xs rows h.1)

  plain_events :
      (invites rows : List CollabInvite) → All (IsBacked invites) (map expired_event rows)
  plain_events invites [] = tt
  plain_events invites (r ∷ rows) = (tt, plain_events invites rows)

  pub expire-Change :
      (db : InviteDb) → UniqueIds db.invites → Change db (expire_batch locked now db).1
  unfolding expire_batch
  expire-Change db u =
      let rows = limit batch_size (select (is_stale locked now) db.invites) in
      record {
        rows =
            answered (λ x. mem_id (map (λ r. r.id) rows) x.id) expired now refl
              (ids_pending db.invites rows (
                All-limit (MarksPending db.invites) batch_size
                  (select (is_stale locked now) db.invites) (select-pending db.invites u)))
              refl;
        events = map expired_event rows;
        published = refl;
        backed = plain_events _ rows;
      }
