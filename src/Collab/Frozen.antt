-- ===== src/Collab/Frozen.antt =====
-- What cannot change any more: a collaboration that has ended, and one whose pair was blocked.
use colab.Prelude.{
  true, false, ◌≡◌, ◌≢◌, sym, ◌∙◌, ◌⊎◌, inl, inr, List, [], ◌∷◌, ◌==◌, ==_iff, any, All,
  All-update_where, All-find, any-update_where, arith,
}
use colab.Prelude.Uuid.{Uuid}
use colab.Collab.Status.{CollabStatus, is_allowed, is_terminal}
use colab.Collab.Table.{Collaboration, CollabDb, with_status, is_visible}
use colab.Collab.Ops.{Op, apply, run}
use colab.Collab.Writes.{
  Write, nothing, new_pair, transition, touch, with_status_keeps, apply-Write,
}

-- The row with this id has the status, and is one that the status endpoint refuses.
abbrev pub IsFixed : Uuid → CollabStatus → Collaboration → Type 0
IsFixed id s c = c.id ≡ id → (c.status ≡ s) × ((is_terminal s ≡ true) ⊎ (c.is_read_only ≡ true))

pub record IsFrozen (id : Uuid) (s : CollabStatus) (db : CollabDb) : Type 0 where
  pub there : any (λ c. c.id == id) db.collabs ≡ true
  pub fixed : All (IsFixed id s) db.collabs

terminal-forbids : (s new : CollabStatus) → is_terminal s ≡ true → is_allowed s new ≡ false
unfolding is_terminal is_allowed
terminal-forbids s new h = ground arith

module _ (id : Uuid) (s : CollabStatus) where
  -- A row that the endpoint accepts is another row.
  other_row :
      (c : Collaboration) (new : CollabStatus)
      → IsFixed id s c
      → c.is_read_only ≡ false
      → is_allowed c.status new ≡ true
      → c.id ≢ id
  other_row c new h writable allowed same =
      let (status, why) = h same in
      elim why [
        | inl over ↦ cc (rw status at allowed, terminal-forbids s new over)
        | inr frozen ↦ cc
      ]

  write-IsFrozen :
      (db : CollabDb) {after : CollabDb} → IsFrozen id s db → Write db after → IsFrozen id s after
  write-IsFrozen db h (nothing e) = rw e h
  write-IsFrozen db h (new_pair a b fresh now absent free e) = rw e (record {
    there = ground (arith, h.there);
    fixed = ((λ same. absurd (cc (rw same at free, h.there))), h.fixed);
  })
  write-IsFrozen db h (transition c i actor new remark now found writable allowed e) =
      let here = All-find (IsFixed id s) (is_visible i actor) db.collabs {x = c} h.fixed found in
      let ne = other_row c new here.0 writable allowed in
      rw e (record {
        there =
            any-update_where (λ d. d.id == id) (λ d. d.id == c.id) (with_status new now) db.collabs
              (λ d. rw (with_status_keeps new now d).0)
            ∙ h.there;
        fixed =
            All-update_where (IsFixed id s) (IsFixed id s) (λ d. d.id == c.id) (with_status new now)
              db.collabs
              (λ d k hit same.
                absurd (
                  ne (sym ((==_iff d.id c.id).0 hit) ∙ sym (with_status_keeps new now d).0 ∙ same)))
              (λ d k miss. k) h.fixed;
      })
  write-IsFrozen db h (touch p f t e) = rw e (record {
    there = any-update_where (λ d. d.id == id) p f db.collabs (λ d. rw (t.id d)) ∙ h.there;
    fixed =
        All-update_where (IsFixed id s) (IsFixed id s) p f db.collabs
          (λ d k hit same. ground (arith, t.id d, t.status d, t.frozen d, k, same)) (λ d k miss. k)
          h.fixed;
  })

  -- A collaboration whose status is terminal, or whose row is read-only, keeps that status under
  -- any later operations, and stays terminal or read-only.
  pub run-IsFrozen : (ops : List Op) (db : CollabDb) → IsFrozen id s db → IsFrozen id s (run ops db)
  unfolding run
  run-IsFrozen [] db h = h
  run-IsFrozen (op ∷ ops) db h =
      run-IsFrozen ops (apply op db) (write-IsFrozen db h (apply-Write db op))
