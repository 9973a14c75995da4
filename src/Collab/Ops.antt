-- ===== src/Collab/Ops.antt =====
-- Everything that writes the tables of collab-svc, as one step each.
use colab.Prelude.{ℕ, String, Option, none, some, List, [], ◌∷◌}
use colab.Prelude.Uuid.{Uuid}
use colab.Collab.Status.{CollabStatus}
use colab.Collab.Table.{
  Collaboration, CollabDb, create_collaboration, transition_status_endpoint, patch_collab_endpoint,
  apply_block, update_last_activity,
}
use colab.Collab.Workers.{Task, run_task, archive_finalize}

pub data Op : Type 0 where
  create : Uuid → Uuid → Uuid → ℕ → Op
  set_status : Uuid → CollabStatus → Uuid → Option String → ℕ → Op
  patch : Uuid → Uuid → Option String → Option String → ℕ → Op
  block : Uuid → Uuid → ℕ → Op
  activity : Uuid → ℕ → ℕ → Op
  task : ℕ → Task → Op
  finalize : Uuid → ℕ → Op

abbrev created : CollabDb → Option (Collaboration × CollabDb) → CollabDb
created db none = db
created db (some (_, db')) = db'

unfoldable pub apply : Op → CollabDb → CollabDb
apply (create a b fresh now) db = created db (create_collaboration a b fresh now db)
apply (set_status id new actor note now) db =
    (transition_status_endpoint id new actor note now db).1
apply (patch id profile title description now) db =
    patch_collab_endpoint id profile title description now db
apply (block a b now) db = apply_block a b now db
apply (activity id at now) db = update_last_activity id at now db
apply (task now t) db = run_task now t db
apply (finalize id now) db = archive_finalize id now db

unfoldable pub run : List Op → CollabDb → CollabDb
run [] db = db
run (op ∷ ops) db = run ops (apply op db)

abbrev pub empty : CollabDb
empty = record { collabs = []; events = [] }
