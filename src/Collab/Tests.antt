-- ===== src/Collab/Tests.antt =====
-- Runs of the collaboration model on small inputs.
use colab.Prelude.{leb, true, false, none, some, List, [], ◌∷◌, ◌≡◌, refl, any, inl}
use colab.Prelude.Time.{days}
use colab.Prelude.Text.{Text, codes}
use colab.Collab.OrderKeys.{before, lexo_midpoint, generate_balanced_keys}
use colab.Collab.OrderKeys.Balanced.{ascending, generate_balanced_keys-ascending}
use colab.Collab.OrderKeys.Between.{is_key, lexo_midpoint-between}
use colab.Collab.Status.{in_progress, completed, is_terminal}
use colab.Collab.Table.{Collaboration, CollabDb, new_row}
use colab.Collab.Workers.{send_nudge_task, inactivity_check, run_task}
use colab.Collab.Ops.{Op, create, set_status, block, task, finalize, run, empty}
use colab.Collab.History.{IsRecorded, history_explains_status}
use colab.Collab.Frozen.{IsFrozen, run-IsFrozen}
use colab.Collab.Inactivity.{same_task, task_not_repeated}

-- Profiles 4 and 5 start, work and finish; a block of the pair comes too late to matter.
abbrev ops : List Op
ops =
    create 5 4 100 1
    ∷ set_status 100 in_progress 4 none 2
    ∷ task 3 (send_nudge_task 100)
    ∷ set_status 100 completed 5 (some "done") 4
    ∷ block 4 5 5
    ∷ finalize 100 6
    ∷ []

history_explains_status_example : IsRecorded (run ops empty)
history_explains_status_example = history_explains_status ops

abbrev first_row : Collaboration
first_row = new_row 5 4 100 1

abbrev first_db : CollabDb
first_db = record { collabs = first_row ∷ []; events = [] }

abbrev finished : CollabDb
finished = record { collabs = record first_row { status = completed } ∷ []; events = [] }

finished-IsFrozen : IsFrozen 100 completed finished
unfolding is_terminal
finished-IsFrozen = record { there = refl; fixed = (λ same. (refl, inl refl), tt) }

run-IsFrozen_example : IsFrozen 100 completed (run ops finished)
run-IsFrozen_example = run-IsFrozen 100 completed ops finished finished-IsFrozen

task_not_repeated_example :
    any
      (same_task (send_nudge_task 100))
      (inactivity_check 14 30 (days 21) (run_task (days 20) (send_nudge_task 100) first_db))
    ≡ false
task_not_repeated_example =
    task_not_repeated 14 30 (days 20) (days 21) (send_nudge_task 100) first_db

lexo_midpoint-between_example :
    (m : Text) × lexo_midpoint (codes "ab") (codes "b") ≡ some m
    × before (codes "ab") m ≡ true
    × before m (codes "b") ≡ true
    × is_key m ≡ true
lexo_midpoint-between_example = lexo_midpoint-between (codes "ab") (codes "b") refl refl refl

-- One key for each of 26 tasks: the last two are the same.
generate_balanced_keys-ascending_example : ascending (generate_balanced_keys 26) ≡ leb 26 25
generate_balanced_keys-ascending_example = generate_balanced_keys-ascending 26
