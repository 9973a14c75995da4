-- ===== src/Collab/Writes.antt =====
-- The four kinds of write to the tables of collab-svc, as a relation between two states: every
-- operation is one of them.
use colab.Prelude.{
  ℕ, String, Bool, true, false, ◌&&◌, Bool-cases, Option-cases, ◌≡◌, refl, inl, inr, Option, none,
  some, ◌∷◌, ◌==◌, find, any, update_where, min, max, arith,
}
use colab.Prelude.Uuid.{Uuid}
use colab.Collab.Status.{CollabStatus, is_allowed}
use colab.Collab.Table.{
  Collaboration, CollabStatusEvent, CollabDb, create_collaboration, with_status,
  transition_status_endpoint, patch_collab_endpoint, apply_block, update_last_activity, is_none,
  is_pair, is_visible, new_row, patched, blocked, is_live_pair, active,
}
use colab.Collab.Workers.{
  archive_collab_task, send_nudge_task, run_task, send_nudge, archive_finalize, nudged_row,
  archived_row,
}
use colab.Collab.Ops.{Op, create, set_status, patch, block, activity, task, finalize, apply}

-- A change of a row that leaves its id, its pair and its status, and never makes it writable.
pub record IsTouch (f : Collaboration → Collaboration) : Type 0 where
  pub id : (c : Collaboration) → (f c).id ≡ c.id
  pub pair : (l g : Uuid) (c : Collaboration) → is_pair l g (f c) ≡ is_pair l g c
  pub status : (c : Collaboration) → (f c).status ≡ c.status
  pub frozen : (c : Collaboration) → c.is_read_only ≡ true → (f c).is_read_only ≡ true

abbrev pub event_of : Collaboration → CollabStatus → Uuid → Option String → CollabStatusEvent
event_of c new actor remark = record {
  collab_id = c.id;
  actor_profile_id = actor;
  prev_status = c.status;
  new_status = new;
  note = remark;
}

pub data Write (db : CollabDb) : CollabDb → Type 0 where
  nothing : {after : CollabDb} → after ≡ db → Write db after
  new_pair :
      {after : CollabDb} (a b fresh : Uuid) (now : ℕ)
      → find (is_pair (min a b) (max a b)) db.collabs ≡ none
      → any (λ c. c.id == fresh) db.collabs ≡ false
      → after ≡ record db { collabs = new_row a b fresh now ∷ db.collabs }
      → Write db after
  transition :
      {after : CollabDb} (c : Collaboration) (id actor : Uuid) (new : CollabStatus)
      (remark : Option String) (now : ℕ)
      → find (is_visible id actor) db.collabs ≡ some c
      → c.is_read_only ≡ false
      → is_allowed c.status new ≡ true
      → after ≡ record {
        collabs = update_where (λ d. d.id == c.id) (with_status new now) db.collabs;
        events = event_of c new actor remark ∷ db.events;
      }
      → Write db after
  touch :
      {after : CollabDb} (p : Collaboration → Bool) (f : Collaboration → Collaboration)
      → IsTouch f
      → after ≡ record db { collabs = update_where p f db.collabs }
      → Write db after

-- What `with_status` does to the other columns.
pub with_status_keeps :
    (new : CollabStatus) (now : ℕ) (c : Collaboration)
    → ((with_status new now c).id ≡ c.id)
      × ((with_status new now c).status ≡ new)
      × ((with_status new now c).is_read_only ≡ c.is_read_only)
unfolding with_status
with_status_keeps new now c = ground arith

pub with_status-pair :
    (l g : Uuid) (new : CollabStatus) (now : ℕ) (c : Collaboration)
    → is_pair l g (with_status new now c) ≡ is_pair l g c
unfolding with_status
with_status-pair l g new now c = ground arith

module _ (db : CollabDb) where
  create-Write : (a b fresh : Uuid) (now : ℕ) → Write db (apply (create a b fresh now) db)
  unfolding apply create_collaboration
  create-Write a b fresh now = elim (Option-cases (find (is_pair (min a b) (max a b)) db.collabs)) [
    | inr (c, e) ↦ nothing (rw e)
    | inl new ↦ elim (Bool-cases (any (λ c. c.id == fresh) db.collabs)) [
      | inl taken ↦ nothing (rw (new, taken))
      | inr free ↦ new_pair a b fresh now new free (rw (new, free))
    ]
  ]

  set_status-Write :
      (id : Uuid) (new : CollabStatus) (actor : Uuid) (remark : Option String) (now : ℕ)
      → Write db (apply (set_status id new actor remark now) db)
  unfolding apply transition_status_endpoint
  set_status-Write id new actor remark now =
      elim (Option-cases (find (is_visible id actor) db.collabs)) [
        | inl missing ↦ nothing (rw (missing, apply))
        | inr (c, e) ↦ elim (Bool-cases c.is_read_only) [
          | inl frozen ↦ nothing (rw (e, frozen, apply))
          | inr writable ↦ elim (Option-cases c.archived_at) [
            | inr (t, gone) ↦ nothing (rw (e, writable, gone, apply))
            | inl live ↦ elim (Bool-cases (is_allowed c.status new)) [
              | inr forbidden ↦ nothing (rw (e, writable, live, forbidden, apply))
              | inl allowed ↦
                  transition c id actor new remark now e writable allowed
                    (rw (e, writable, live, allowed, apply))
            ]
          ]
        ]
      ]

  patch-Write :
      (id profile : Uuid) (title description : Option String) (now : ℕ)
      → Write db (apply (patch id profile title description now) db)
  unfolding apply patch_collab_endpoint
  patch-Write id profile title description now =
      elim (Option-cases (find (is_visible id profile) db.collabs)) [
        | inl missing ↦ nothing (rw (missing, apply))
        | inr (c, e) ↦ elim (Bool-cases c.is_read_only) [
          | inl frozen ↦ nothing (rw (e, frozen, apply))
          | inr writable ↦ elim (Option-cases c.archived_at) [
            | inr (t, gone) ↦ nothing (rw (e, writable, gone, apply))
            | inl live ↦
                touch (λ d. d.id == c.id) (patched title description now) (ground arith)
                  (rw (e, writable, live, apply))
          ]
        ]
      ]

  nudge-Write : (id : Uuid) (now : ℕ) → Write db (send_nudge id now db).0
  unfolding send_nudge
  nudge-Write id now =
      elim (Option-cases
        (find (λ c. c.id == id && is_none c.nudge_sent_at && is_none c.archived_at) db.collabs)) [
          | inl missing ↦ nothing (rw (missing, send_nudge))
          | inr (c, e) ↦
              touch (λ c. c.id == id && is_none c.nudge_sent_at) (nudged_row now) (ground arith)
                (rw (e, send_nudge))
        ]

  pub apply-Write : (op : Op) → Write db (apply op db)
  unfolding apply apply_block update_last_activity run_task archive_finalize
  apply-Write (create a b fresh now) = create-Write a b fresh now
  apply-Write (set_status id new actor remark now) = set_status-Write id new actor remark now
  apply-Write (patch id profile title description now) =
      patch-Write id profile title description now
  apply-Write (block a b now) = touch (is_live_pair a b) (blocked now) (ground arith) refl
  apply-Write (activity id at now) = touch (λ c. c.id == id) (active at now) (ground arith) refl
  apply-Write (task now (archive_collab_task id)) =
      touch (λ c. c.id == id && is_none c.archived_at) (archived_row now) (ground arith) refl
  apply-Write (task now (send_nudge_task id)) = nudge-Write id now
  apply-Write (finalize id now) = touch (λ c. c.id == id) (archived_row now) (ground arith) refl
