-- ===== src/Collab/History.antt =====
-- The status history of a collaboration: the rows of collab_status_event are a path through the
-- state machine that ends in the status of the row.
use colab.Prelude.{
  ℕ, String, Bool, true, false, Bool-cases, ◌≡◌, refl, sym, ◌∙◌, inl, inr, Option, some, List, [],
  ◌∷◌, ◌==◌, ==_iff, find, any, update_where, All, All-update_where, All-find, All-map,
  any-update_where, arith, if◌then◌else◌,
}
use colab.Prelude.Uuid.{Uuid}
use colab.Collab.Status.{CollabStatus, still_deciding, is_allowed}
use colab.Collab.Table.{
  Collaboration, CollabStatusEvent, CollabDb, with_status, is_visible, new_row,
}
use colab.Collab.Ops.{Op, apply, run, empty}
use colab.Collab.Writes.{
  IsTouch, Write, nothing, new_pair, transition, touch, event_of, with_status_keeps, apply-Write,
}

-- The status that a history leads to: it begins at `still_deciding`.
abbrev pub current : Uuid → List CollabStatusEvent → CollabStatus
current id [] = still_deciding
current id (e ∷ es) = if e.collab_id == id then e.new_status else current id es

-- Each event starts where the history before it ended, and is a transition of the machine.
abbrev pub IsHistory : List CollabStatusEvent → Type 0
IsHistory [] = Unit
IsHistory (e ∷ es) =
    (e.prev_status ≡ current e.collab_id es)
    × (is_allowed e.prev_status e.new_status ≡ true)
    × IsHistory es

abbrev IsCurrent : List CollabStatusEvent → Collaboration → Type 0
IsCurrent es c = c.status ≡ current c.id es

abbrev IsKnown : List Collaboration → CollabStatusEvent → Type 0
IsKnown cs e = any (λ c. c.id == e.collab_id) cs ≡ true

pub record IsRecorded (db : CollabDb) : Type 0 where
  pub rows : All (IsCurrent db.events) db.collabs
  pub history : IsHistory db.events
  pub known : All (IsKnown db.collabs) db.events

IsKnown-update :
    (p : Collaboration → Bool) (f : Collaboration → Collaboration) (cs : List Collaboration)
    (es : List CollabStatusEvent)
    → ((c : Collaboration) → (f c).id ≡ c.id)
    → All (IsKnown cs) es
    → All (IsKnown (update_where p f cs)) es
IsKnown-update p f cs es same_id h =
    All-map (IsKnown cs) (IsKnown (update_where p f cs)) es
      (λ e k. any-update_where (λ c. c.id == e.collab_id) p f cs (λ c. rw (same_id c)) ∙ k) h

touch-IsRecorded :
    (p : Collaboration → Bool) (f : Collaboration → Collaboration) (db : CollabDb)
    → IsTouch f
    → IsRecorded db
    → IsRecorded (record db { collabs = update_where p f db.collabs })
touch-IsRecorded p f db t h = record {
  rows =
      All-update_where (IsCurrent db.events) (IsCurrent db.events) p f db.collabs
        (λ c k e. rw (t.id c, t.status c) k) (λ c k e. k) h.rows;
  history = h.history;
  known = IsKnown-update p f db.collabs db.events t.id h.known;
}

-- An id that no row has is in no event.
current_of_unknown :
    (id : Uuid) (cs : List Collaboration) (es : List CollabStatusEvent)
    → any (λ c. c.id == id) cs ≡ false
    → All (IsKnown cs) es
    → current id es ≡ still_deciding
current_of_unknown id cs [] new h = refl
current_of_unknown id cs (e ∷ es) new h = elim (Bool-cases (e.collab_id == id)) [
  | inl same ↦ cc (rw ((==_iff e.collab_id id).0 same) at h.0)
  | inr other ↦ rw other (current_of_unknown id cs es new h.1)
]

new_pair-IsRecorded :
    (a b fresh : Uuid) (now : ℕ) (db : CollabDb)
    → any (λ c. c.id == fresh) db.collabs ≡ false
    → IsRecorded db
    → IsRecorded (record db { collabs = new_row a b fresh now ∷ db.collabs })
new_pair-IsRecorded a b fresh now db free h = record {
  rows = (sym (current_of_unknown fresh db.collabs db.events free h.known), h.rows);
  history = h.history;
  known =
      All-map (IsKnown db.collabs) (IsKnown (new_row a b fresh now ∷ db.collabs)) db.events
        (λ e k. ground arith) h.known;
}

-- The transition of a row: its history grows by the step that the machine allows.
transition-IsRecorded :
    (c : Collaboration) (new : CollabStatus) (actor : Uuid) (remark : Option String) (now : ℕ)
    (db : CollabDb)
    → IsRecorded db
    → IsCurrent db.events c
    → any (λ d. d.id == c.id) db.collabs ≡ true
    → is_allowed c.status new ≡ true
    → IsRecorded (record {
      collabs = update_where (λ d. d.id == c.id) (with_status new now) db.collabs;
      events = event_of c new actor remark ∷ db.events;
    })
transition-IsRecorded c new actor remark now db h cur there allowed =
    let same : (d : Collaboration) → (with_status new now d).id ≡ d.id =
      λ d. (with_status_keeps new now d).0 in
    record {
      rows =
          All-update_where (IsCurrent db.events)
            (IsCurrent (event_of c new actor remark ∷ db.events)) (λ d. d.id == c.id)
            (with_status new now) db.collabs
            (λ d k e. rw (same d, (with_status_keeps new now d).1) (ground arith))
            (λ d k e. ground arith) h.rows;
      history = (cur, allowed, h.history);
      known = (
        any-update_where (λ d. d.id == c.id) (λ d. d.id == c.id) (with_status new now) db.collabs
              (λ d. rw (same d))
            ∙ there,
        IsKnown-update (λ d. d.id == c.id) (with_status new now) db.collabs db.events same h.known,
      );
    }

any_self :
    (id actor : Uuid) (c : Collaboration) (cs : List Collaboration)
    → find (is_visible id actor) cs ≡ some c
    → any (λ d. d.id == c.id) cs ≡ true
any_self id actor c [] e = cc
any_self id actor c (d ∷ cs) e = ground (arith, any_self id actor c cs)

write-IsRecorded :
    (db : CollabDb) {after : CollabDb} → IsRecorded db → Write db after → IsRecorded after
write-IsRecorded db h (nothing e) = rw e h
write-IsRecorded db h (new_pair a b fresh now absent free e) =
    rw e (new_pair-IsRecorded a b fresh now db free h)
write-IsRecorded db h (transition c id actor new remark now found writable allowed e) = rw e (
    transition-IsRecorded c new actor remark now db h
      (All-find (IsCurrent db.events) (is_visible id actor) db.collabs {x = c} h.rows found).0
      (any_self id actor c db.collabs found) allowed)
write-IsRecorded db h (touch p f t e) = rw e (touch-IsRecorded p f db t h)

run-IsRecorded : (ops : List Op) (db : CollabDb) → IsRecorded db → IsRecorded (run ops db)
unfolding run
run-IsRecorded [] db h = h
run-IsRecorded (op ∷ ops) db h =
    run-IsRecorded ops (apply op db) (write-IsRecorded db h (apply-Write db op))

-- After any operations from empty tables, the events of the history are a path through the state
-- machine from `still_deciding`, and each row has the status in which its path ends.
pub history_explains_status : (ops : List Op) → IsRecorded (run ops empty)
history_explains_status ops =
    run-IsRecorded ops empty (record { rows = tt; history = tt; known = tt })
