-- ===== src/Collab/Workers.antt =====
-- services/collab-svc/app/workers/inactivity_tasks.py and archive_tasks.py.
use colab.Prelude.{
  ℕ, ◌+◌, Bool, true, false, not, ◌&&◌, ◌||◌, Option, none, some, List, [], ◌∷◌, ◌++◌, ◌==◌, ltb,
  find, update_where, select, if◌then◌else◌,
}
use colab.Prelude.Time.{days}
use colab.Prelude.Uuid.{Uuid}
use colab.Collab.Status.{is_terminal}
use colab.Collab.Table.{Collaboration, CollabDb, is_none}

pub data Task : Type 0 where
  archive_collab_task send_nudge_task : Uuid → Task

-- `last_activity_at < now - timedelta(days=n)`
abbrev pub is_idle : ℕ → ℕ → Collaboration → Bool
is_idle n now c = ltb (c.last_activity_at + days n) now

-- The settings `nudge_days` and `archive_days` of app/config.py.
module _ (nudge_days archive_days : ℕ) where
  -- The filter of `_inactivity_check_async`.
  unfoldable pub is_stale : ℕ → Collaboration → Bool
  unfolding is_terminal
  is_stale now c =
      not (is_terminal c.status)
      && is_none c.archived_at
      && ((is_idle nudge_days now c && is_none c.nudge_sent_at) || is_idle archive_days now c)

  -- The body of its loop: what is dispatched for a row.
  unfoldable pub dispatch : ℕ → Collaboration → List Task
  dispatch now c =
      if is_idle archive_days now c
      then archive_collab_task c.id ∷ []
      else if is_idle nudge_days now c && is_none c.nudge_sent_at
      then send_nudge_task c.id ∷ []
      else []

abbrev pub nudged_row : ℕ → Collaboration → Collaboration
nudged_row now c = record c { nudge_sent_at = some now; updated_at = now }

-- `_send_nudge_async`: the tables, and whether `collab.nudge_due` is emitted.
abbrev nudged : Uuid → ℕ → CollabDb → Option Collaboration → CollabDb × Bool
nudged id now db none = (db, false)
nudged id now db (some c) = (
  record db {
    collabs = update_where (λ c. c.id == id && is_none c.nudge_sent_at) (nudged_row now) db.collabs;
  },
  true,
)

unfoldable pub send_nudge : Uuid → ℕ → CollabDb → CollabDb × Bool
send_nudge id now db =
    nudged id now db
      (find (λ c. c.id == id && is_none c.nudge_sent_at && is_none c.archived_at) db.collabs)

abbrev pub archived_row : ℕ → Collaboration → Collaboration
archived_row now c = record c { archived_at = some now; archive_at = none; updated_at = now }

-- `_archive_collab_async`
unfoldable pub archive_collab : Uuid → ℕ → CollabDb → CollabDb
archive_collab id now db = record db {
  collabs = update_where (λ c. c.id == id && is_none c.archived_at) (archived_row now) db.collabs;
}

-- `_archive_finalize_async`: for a row that is not there it changes nothing, as the update does.
unfoldable pub archive_finalize : Uuid → ℕ → CollabDb → CollabDb
archive_finalize id now db = record db {
  collabs = update_where (λ c. c.id == id) (archived_row now) db.collabs;
}

unfoldable pub run_task : ℕ → Task → CollabDb → CollabDb
unfolding archive_collab send_nudge
run_task now (archive_collab_task id) db = archive_collab id now db
run_task now (send_nudge_task id) db = (send_nudge id now db).0

unfoldable pub dispatch_all : ℕ → ℕ → ℕ → List Collaboration → List Task
unfolding dispatch
dispatch_all nudge_days archive_days now [] = []
dispatch_all nudge_days archive_days now (c ∷ cs) =
    dispatch nudge_days archive_days now c ++ dispatch_all nudge_days archive_days now cs

-- `_inactivity_check_async`: the tasks that it queues.
unfoldable pub inactivity_check : ℕ → ℕ → ℕ → CollabDb → List Task
unfolding is_stale dispatch_all
inactivity_check nudge_days archive_days now db =
    dispatch_all nudge_days archive_days now
      (select (is_stale nudge_days archive_days now) db.collabs)
