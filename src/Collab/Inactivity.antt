-- ===== src/Collab/Inactivity.antt =====
-- The hourly scan: a task that has run is not queued again.
use colab.Prelude.{
  ℕ, Bool, true, false, ◌&&◌, Bool-cases, Option-cases, ◌≡◌, refl, inl, inr, none, List, [], ◌∷◌,
  ◌++◌, ◌==◌, any, find, select, update_where, All, arith,
}
use colab.Prelude.Uuid.{Uuid}
use colab.Collab.Table.{Collaboration, CollabDb, is_none}
use colab.Collab.Workers.{
  Task, archive_collab_task, send_nudge_task, is_stale, dispatch, dispatch_all, inactivity_check,
  send_nudge, run_task, nudged_row, archived_row,
}

abbrev pub same_task : Task → Task → Bool
same_task (archive_collab_task a) (archive_collab_task b) = a == b
same_task (send_nudge_task a) (send_nudge_task b) = a == b
same_task _ _ = false

any-append :
    (t : Task) (xs ys : List Task)
    → any (same_task t) xs ≡ false
    → any (same_task t) ys ≡ false
    → any (same_task t) (xs ++ ys) ≡ false
any-append t [] ys h k = k
any-append t (x ∷ xs) ys h k = ground (arith, any-append t xs ys)

-- A row of which the task is over.
abbrev IsDone : Task → Collaboration → Type 0
IsDone (archive_collab_task id) c = (c.id == id) ≡ true → is_none c.archived_at ≡ false
IsDone (send_nudge_task id) c =
    (c.id == id) ≡ true → (is_none c.nudge_sent_at && is_none c.archived_at) ≡ false

dispatch-done :
    (nudge_days archive_days later : ℕ) (t : Task) (c : Collaboration)
    → IsDone t c
    → is_stale nudge_days archive_days later c ≡ true
    → any (same_task t) (dispatch nudge_days archive_days later c) ≡ false
unfolding is_stale dispatch
dispatch-done nd ad later (archive_collab_task id) c h s = ground arith
dispatch-done nd ad later (send_nudge_task id) c h s = ground arith

check-done :
    (nudge_days archive_days later : ℕ) (t : Task) (cs : List Collaboration)
    → All (IsDone t) cs
    → any (same_task t) (
        dispatch_all nudge_days archive_days later
          (select (is_stale nudge_days archive_days later) cs))
      ≡ false
unfolding dispatch_all
check-done nd ad later t [] h = refl
check-done nd ad later t (c ∷ cs) h = elim (Bool-cases (is_stale nd ad later c)) [
  | inr fresh ↦ rw fresh (check-done nd ad later t cs h.1)
  | inl stale ↦
      rw stale (
        any-append t _ _ (dispatch-done nd ad later t c h.0 stale)
          (check-done nd ad later t cs h.1))
]

IsDone-archive :
    (id : Uuid) (now : ℕ) (cs : List Collaboration)
    → All
        (IsDone (archive_collab_task id))
        (update_where (λ c. c.id == id && is_none c.archived_at) (archived_row now) cs)
IsDone-archive id now [] = tt
IsDone-archive id now (c ∷ cs) = ground (arith, IsDone-archive id now cs)

IsDone-nudge :
    (id : Uuid) (now : ℕ) (cs : List Collaboration)
    → All
        (IsDone (send_nudge_task id))
        (update_where (λ c. c.id == id && is_none c.nudge_sent_at) (nudged_row now) cs)
IsDone-nudge id now [] = tt
IsDone-nudge id now (c ∷ cs) = ground (arith, IsDone-nudge id now cs)

IsDone-none :
    (id : Uuid) (cs : List Collaboration)
    → find (λ c. c.id == id && is_none c.nudge_sent_at && is_none c.archived_at) cs ≡ none
    → All (IsDone (send_nudge_task id)) cs
IsDone-none id [] h = tt
IsDone-none id (c ∷ cs) h = ground (arith, IsDone-none id cs)

run_task-IsDone : (now : ℕ) (t : Task) (db : CollabDb) → All (IsDone t) (run_task now t db).collabs
unfolding run_task
run_task-IsDone now (archive_collab_task id) db = IsDone-archive id now db.collabs
run_task-IsDone now (send_nudge_task id) db =
    elim (Option-cases
      (find (λ c. c.id == id && is_none c.nudge_sent_at && is_none c.archived_at) db.collabs)) [
        | inl missing ↦ rw (missing, run_task, send_nudge) (IsDone-none id db.collabs missing)
        | inr (c, e) ↦ rw (e, run_task, send_nudge) (IsDone-nudge id now db.collabs)
      ]

-- Whatever the settings and the times: right after a task has run, the scan does not queue it
-- again, be it a nudge or an archiving.
pub task_not_repeated :
    (nudge_days archive_days now later : ℕ) (t : Task) (db : CollabDb)
    → any (same_task t) (inactivity_check nudge_days archive_days later (run_task now t db)) ≡ false
unfolding inactivity_check
task_not_repeated nd ad now later t db =
    check-done nd ad later t (run_task now t db).collabs (run_task-IsDone now t db)
