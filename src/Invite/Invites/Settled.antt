-- ===== src/Invite/Invites/Settled.antt =====
-- What holds over every sequence of writes to the tables of invite-svc.
use colab.Prelude.{
  ℕ, ◌≤◌, Bool, true, false, ◌≡◌, refl, sym, subst, some, List, [], ◌∷◌, ◌++◌, ==_refl, length,
  select, All, All-map, multiple_rows, scalar_one_or_none, arith,
}
use colab.Prelude.Uuid.{Uuid}
use colab.Invite.Quota.{SortedSets}
use colab.Invite.Invites.{
  respond, is_mirror, find_invite, recipient, sender, accept_invite, reject_invite, cancel_invite,
}
use colab.Invite.Invites.Changes.{is_accepted_as, IsBacked, Rewrite, Change, UniqueIds}
use colab.Invite.Invites.Sending.{InviteSettings, InviteState}
use colab.Invite.Invites.Ops.{Op, send, accept, reject, cancel, block, unblock, expire, apply, run}
use colab.Invite.Invites.Rows.{
  accepted, rejected, cancelled, CollabInvite, InviteDb, Event, match_created, invite_sent,
  invite_accepted, invite_rejected, invite_cancelled, invite_expired, block_created, block_removed,
  is_pending, raises, server_error,
}
use colab.Invite.Invites.Steps.{
  answered_rows, accept-Change, answer-Change, block-Change, unblock-Change,
}
use colab.Invite.Invites.Insert.{send-Change}
use colab.Invite.Invites.Stale.{expire-Change}
use colab.Invite.Invites.Changes.{
  HoldsOfSettled, Rewrite-any, Rewrite-count, Rewrite-UniqueIds, Rewrite-settled,
}

module _ {Z : Type 0} (redis : SortedSets Z) (settings : InviteSettings) where
  pub apply-Change :
      (op : Op) (st : InviteState redis)
      → UniqueIds st.db.invites
      → Change st.db (apply redis settings op st).db
  unfolding apply reject_invite cancel_invite
  apply-Change (send body call) st u = send-Change redis settings body call st
  apply-Change (accept id caller now) st u = accept-Change id caller now st.db u
  apply-Change (reject id caller now) st u =
      answer-Change recipient rejected invite_rejected id caller now st.db refl (λ a b c _. tt) u
  apply-Change (cancel id caller now) st u =
      answer-Change sender cancelled invite_cancelled id caller now st.db refl (λ a b c _. tt) u
  apply-Change (block caller profile reason now) st u = block-Change caller profile reason now st.db
  apply-Change (unblock caller profile) st u = unblock-Change caller profile st.db
  apply-Change (expire locked now) st u = expire-Change locked now st.db u

  accepted_settled : (id a b : Uuid) → HoldsOfSettled (is_accepted_as id a b)
  accepted_settled id a b x h = ground (arith, h)

  IsBacked-mono :
      {old new : List CollabInvite} (e : Event) → Rewrite old new → IsBacked old e → IsBacked new e
  IsBacked-mono (match_created a b i j) r h = (
    Rewrite-any (is_accepted_as i a b) (accepted_settled i a b) r h.0,
    Rewrite-any (is_accepted_as j b a) (accepted_settled j b a) r h.1,
  )
  IsBacked-mono (invite_sent a b c) r h = tt
  IsBacked-mono (invite_accepted a b c) r h = tt
  IsBacked-mono (invite_rejected a b c) r h = tt
  IsBacked-mono (invite_cancelled a b c) r h = tt
  IsBacked-mono (invite_expired a b c) r h = tt
  IsBacked-mono (block_created a b) r h = tt
  IsBacked-mono (block_removed a b) r h = tt

  All-append {ℓ κ} :
      {A : Type ℓ} (P : A → Type κ) (xs ys : List A) → All P xs → All P ys → All P (xs ++ ys)
  All-append P [] ys h k = k
  All-append P (x ∷ xs) ys h k = (h.0, All-append P xs ys h.1 k)

  -- Unique ids, and every published match has its two accepted invites.
  abbrev pub IsSound : InviteDb → Type 0
  IsSound db = UniqueIds db.invites × All (IsBacked db.invites) db.published

  pub Change-IsSound : {old new : InviteDb} → Change old new → IsSound old → IsSound new
  Change-IsSound {old} {new} c (u, b) = (
    Rewrite-UniqueIds c.rows u,
    subst (λ p. All (IsBacked new.invites) p) (sym c.published)
        (All-append (IsBacked new.invites) c.events old.published c.backed (
          All-map (IsBacked old.invites) (IsBacked new.invites) old.published
            (λ e. IsBacked-mono e c.rows) b)),
  )

  -- From tables in which ids are unique and every published match has two accepted invites behind it, one in
  -- each direction, as empty tables are: any sequence of sends, answers, blocks and expiry batches keeps both.
  pub run-IsSound :
      (ops : List Op) (st : InviteState redis)
      → IsSound st.db
      → IsSound (run redis settings ops st).db
  unfolding run
  run-IsSound [] st h = h
  run-IsSound (op ∷ ops) st h =
      run-IsSound ops (apply redis settings op st) (Change-IsSound (apply-Change op st h.0) h)

  -- In such tables, an invite that is no longer pending is final: whatever requests and expiry batches follow, the
  -- table still holds the same row for it.
  pub find_invite-run :
      (id : Uuid) (ops : List Op) (st : InviteState redis) {i : CollabInvite}
      → IsSound st.db
      → find_invite id st.db.invites ≡ some i
      → is_pending i.status ≡ false
      → find_invite id (run redis settings ops st).db.invites ≡ some i
  unfolding run
  find_invite-run id [] st s h k = h
  find_invite-run id (op ∷ ops) st s h k =
      let c = apply-Change op st s.0 in
      find_invite-run id ops (apply redis settings op st) (Change-IsSound c s)
        (Rewrite-settled id c.rows h k) k

  run-count :
      (q : CollabInvite → Bool) (ops : List Op) (st : InviteState redis)
      → HoldsOfSettled q
      → IsSound st.db
      → length (select q st.db.invites) ≤ length (select q (run redis settings ops st).db.invites)
  unfolding run
  run-count q [] st off s = omega arith
  run-count q (op ∷ ops) st off s =
      let c = apply-Change op st s.0 in
      omega (
        arith,
        Rewrite-count q off c.rows,
        run-count q ops (apply redis settings op st) off (Change-IsSound c s),
      )

  mirror_settled : (i : CollabInvite) → HoldsOfSettled (is_mirror i)
  mirror_settled i x h = ground (arith, h)

  two_rows {ℓ} : {A : Type ℓ} (xs : List A) → 2 ≤ length xs → scalar_one_or_none xs ≡ multiple_rows
  two_rows [] h = absurd (omega arith)
  two_rows (x ∷ []) h = absurd (omega arith)
  two_rows (x ∷ y ∷ xs) h = refl

  accept_refused :
      (id now : ℕ) (db : InviteDb) {i : CollabInvite}
      → UniqueIds db.invites
      → find_invite id db.invites ≡ some i
      → is_pending i.status ≡ true
      → 2 ≤ length (select (is_mirror i) db.invites)
      → accept_invite id i.to_profile_id now db ≡ (raises server_error, db)
  unfolding accept_invite
  accept_refused id now db {i} u e p two =
      let more =
        Rewrite-count (is_mirror i) (mirror_settled i)
          (answered_rows db accepted id now refl u e p) in
      let many =
        two_rows (select (is_mirror i) (respond accepted i.id now db.invites))
          (omega (arith, more, two)) in
      rw (e, ==_refl i.to_profile_id, p, many) refl

  -- In such tables, once two invites in the other direction are accepted, a pending invite can never be accepted:
  -- whatever requests follow, the recipient's acceptance fails with a server error and changes nothing.
  pub accept_invite-two_mirrors :
      (id now : ℕ) (ops : List Op) (st : InviteState redis) {i : CollabInvite}
      → IsSound st.db
      → 2 ≤ length (select (is_mirror i) st.db.invites)
      → find_invite id (run redis settings ops st).db.invites ≡ some i
      → is_pending i.status ≡ true
      → accept_invite id i.to_profile_id now (run redis settings ops st).db
        ≡ (raises server_error, (run redis settings ops st).db)
  accept_invite-two_mirrors id now ops st {i} s two e p =
      let later = run-count (is_mirror i) ops st (mirror_settled i) s in
      accept_refused id now (run redis settings ops st).db (run-IsSound ops st s).0 e p
        (omega (arith, later, two))
