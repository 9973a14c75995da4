-- ===== src/Collab/Table.antt =====
-- The tables of services/collab-svc/app/models.py and the operations on them of
-- app/services/collab_service.py and app/routers/collabs.py.
use colab.Prelude.{
  ℕ, ◌+◌, String, Bool, true, false, not, ◌&&◌, ◌||◌, Option, none, some, List, ◌∷◌, ◌==◌, find,
  any, min, max, update_where, if◌then◌else◌,
}
use colab.Prelude.Time.{days}
use colab.Prelude.Uuid.{Uuid}
use colab.Collab.Status.{
  CollabStatus, still_deciding, in_progress, completed, didnt_work_out, is_allowed, is_terminal,
}

pub record Collaboration : Type 0 where
  pub id : Uuid
  pub profile_id_a : Uuid
  pub profile_id_b : Uuid
  pub least_participant : Uuid
  pub greatest_participant : Uuid
  pub title : Option String
  pub description : Option String
  pub status : CollabStatus
  pub is_read_only : Bool
  pub last_activity_at : ℕ
  pub nudge_sent_at : Option ℕ
  pub archive_at : Option ℕ
  pub archived_at : Option ℕ
  pub completed_at : Option ℕ
  pub updated_at : ℕ

pub record CollabStatusEvent : Type 0 where
  pub collab_id : Uuid
  pub actor_profile_id : Uuid
  pub prev_status : CollabStatus
  pub new_status : CollabStatus
  pub note : Option String

-- The newest event stands first.
pub record CollabDb : Type 0 where
  pub collabs : List Collaboration
  pub events : List CollabStatusEvent

abbrev pub is_none {ℓ} : {A : Type ℓ} → Option A → Bool
is_none none = true
is_none (some _) = false

abbrev pub is_pair : Uuid → Uuid → Collaboration → Bool
is_pair least greatest c = c.least_participant == least && c.greatest_participant == greatest

abbrev pub new_row : Uuid → Uuid → Uuid → ℕ → Collaboration
new_row a b fresh now = record {
  id = fresh;
  profile_id_a = a;
  profile_id_b = b;
  least_participant = min a b;
  greatest_participant = max a b;
  title = none;
  description = none;
  status = still_deciding;
  is_read_only = false;
  last_activity_at = now;
  nudge_sent_at = none;
  archive_at = none;
  archived_at = none;
  completed_at = none;
  updated_at = now;
}

abbrev inserted :
    Uuid → Uuid → Uuid → ℕ → CollabDb → Option Collaboration → Option (Collaboration × CollabDb)
inserted a b fresh now db (some c) = some (c, db)
inserted a b fresh now db none =
    if any (λ c. c.id == fresh) db.collabs
    then none
    else some (new_row a b fresh now, record db { collabs = new_row a b fresh now ∷ db.collabs })

-- `ON CONFLICT DO NOTHING` on the pair, then the row that is there. `none` is the error of the
-- primary key, if the id that the database makes is taken.
unfoldable pub create_collaboration :
    Uuid → Uuid → Uuid → ℕ → CollabDb → Option (Collaboration × CollabDb)
create_collaboration a b fresh now db =
    inserted a b fresh now db (find (is_pair (min a b) (max a b)) db.collabs)

abbrev pub is_visible : Uuid → Uuid → Collaboration → Bool
is_visible id profile c = c.id == id && (c.profile_id_a == profile || c.profile_id_b == profile)

-- `get_collab`: only for a participant.
unfoldable pub get_collab : Uuid → Uuid → CollabDb → Option Collaboration
get_collab id profile db = find (is_visible id profile) db.collabs

-- The side effects of `transition_status` on the row, for a transition that is allowed.
unfoldable pub with_status : CollabStatus → ℕ → Collaboration → Collaboration
with_status completed now c = record c {
  status = completed;
  archive_at = some now;
  completed_at = some now;
  updated_at = now;
}
with_status didnt_work_out now c = record c {
  status = didnt_work_out;
  archive_at = some now;
  updated_at = now;
}
with_status in_progress now c = record c {
  status = in_progress;
  nudge_sent_at = none;
  archive_at = some (c.last_activity_at + days 30);
  updated_at = now;
}
with_status still_deciding now c = record c {
  status = still_deciding;
  nudge_sent_at = none;
  archive_at = some (c.last_activity_at + days 30);
  updated_at = now;
}

-- `none` is InvalidTransitionError.
unfoldable pub transition_status :
    Collaboration
    → CollabStatus
    → Uuid
    → Option String
    → ℕ
    → CollabDb
    → Option (CollabStatusEvent × CollabDb)
unfolding is_allowed with_status
transition_status c new actor note now db =
    let event : CollabStatusEvent = record {
      collab_id = c.id;
      actor_profile_id = actor;
      prev_status = c.status;
      new_status = new;
      note = note;
    } in
    if is_allowed c.status new
    then some (
      event,
      record {
        collabs = update_where (λ d. d.id == c.id) (with_status new now) db.collabs;
        events = event ∷ db.events;
      },
    )
    else none

pub data StatusResponse : Type 0 where
  not_found read_only archived invalid_transition : StatusResponse
  changed : CollabStatusEvent → Bool → StatusResponse

abbrev answer :
    CollabStatus → CollabDb → Option (CollabStatusEvent × CollabDb) → StatusResponse × CollabDb
answer new db none = (invalid_transition, db)
answer new db (some (event, db')) = (changed event (is_terminal new), db')

abbrev guarded :
    CollabStatus
    → Uuid
    → Option String
    → ℕ
    → CollabDb
    → Option Collaboration
    → StatusResponse × CollabDb
guarded _ _ _ _ db none = (not_found, db)
guarded new actor remark now db (some c) =
    if c.is_read_only
    then (read_only, db)
    else if not (is_none c.archived_at)
    then (archived, db)
    else answer new db (transition_status c new actor remark now db)

-- `transition_status_endpoint`; `changed` also says whether `archive_finalize` is queued.
unfoldable pub transition_status_endpoint :
    Uuid → CollabStatus → Uuid → Option String → ℕ → CollabDb → StatusResponse × CollabDb
unfolding get_collab transition_status is_terminal
transition_status_endpoint id new actor note now db =
    guarded new actor note now db (get_collab id actor db)

abbrev pub or_keep {ℓ} : {A : Type ℓ} → Option A → Option A → Option A
or_keep none old = old
or_keep (some a) old = some a

abbrev pub patched : Option String → Option String → ℕ → Collaboration → Collaboration
patched title description now c = record c {
  title = or_keep title c.title;
  description = or_keep description c.description;
  updated_at = now;
}

-- `patch_collab`; the search vector is not modelled.
unfoldable pub patch_collab : Uuid → Option String → Option String → ℕ → CollabDb → CollabDb
patch_collab id title description now db = record db {
  collabs = update_where (λ c. c.id == id) (patched title description now) db.collabs;
}

abbrev patch_guarded :
    Option String → Option String → ℕ → CollabDb → Option Collaboration → CollabDb
patch_guarded title description now db none = db
patch_guarded title description now db (some c) =
    if c.is_read_only
    then db
    else if not (is_none c.archived_at)
    then db
    else patch_collab c.id title description now db

-- `patch_collab_endpoint`: what it leaves; it answers 404 or 403 where it leaves the tables alone.
unfoldable pub patch_collab_endpoint :
    Uuid → Uuid → Option String → Option String → ℕ → CollabDb → CollabDb
unfolding get_collab patch_collab
patch_collab_endpoint id profile title description now db =
    patch_guarded title description now db (get_collab id profile db)

abbrev pub blocked : ℕ → Collaboration → Collaboration
blocked now c = record c {
  is_read_only = true;
  archive_at = some (now + days 30);
  updated_at = now;
}

abbrev pub is_live_pair : Uuid → Uuid → Collaboration → Bool
is_live_pair a b c = is_pair (min a b) (max a b) c && is_none c.archived_at

-- `apply_block`
unfoldable pub apply_block : Uuid → Uuid → ℕ → CollabDb → CollabDb
apply_block a b now db = record db {
  collabs = update_where (is_live_pair a b) (blocked now) db.collabs;
}

abbrev pub active : ℕ → ℕ → Collaboration → Collaboration
active at now c = record c { last_activity_at = at; nudge_sent_at = none; updated_at = now }

-- `update_last_activity`
unfoldable pub update_last_activity : Uuid → ℕ → ℕ → CollabDb → CollabDb
update_last_activity id activity_at now db = record db {
  collabs = update_where (λ c. c.id == id) (active activity_at now) db.collabs;
}
