-- ===== src/Collab/Pairs.antt =====
-- Two profiles share one collaboration, whoever's match comes first and whatever happens to it.
use colab.Prelude.{◌≡◌, some, find}
use colab.Prelude.Uuid.{Uuid}
use colab.Collab.Table.{Collaboration, CollabDb, is_pair}

-- The row of a pair has this id.
abbrev pub HasPair : Uuid → Uuid → Uuid → CollabDb → Type 0
HasPair least greatest id db =
    (c : Collaboration) × (find (is_pair least greatest) db.collabs ≡ some c) × (c.id ≡ id)
