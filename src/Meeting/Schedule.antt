-- ===== src/Meeting/Schedule.antt =====
-- `create_meeting` and `patch_meeting` of services/meeting-svc/app/routers/meetings.py, with the checks of
-- app/schemas.py. A time is in microseconds. What Google Calendar and the upload of the ICS file answer
-- is a part of the call.
pub mod Overlap
use colab.Prelude.{
  ℕ, ◌+◌, ◌*◌, String, Bool, true, false, not, ◌&&◌, Option, none, some, List, [], ◌∷◌, ◌==◌,
  str_eq, ltb, leb, find, if◌then◌else◌,
}
use colab.Prelude.Uuid.{Uuid}
use colab.Meeting.Rows.{
  MeetingStatus, scheduled, cancelled, no_bot, Meeting, meeting_scheduled, meeting_cancelled,
  MeetingDb, not_found, unprocessable, bad_gateway, server_error, meeting_conflict, Answer, ok,
  raises, find_meeting, update_meeting, is_over,
}

pub record MeetingCreateRequest : Type 0 where
  pub scheduled_at : ℕ
  pub duration_min : ℕ
  pub bot_enabled : Bool

-- `cancel` stands for the status "cancelled", the only one that the schema takes.
pub record MeetingPatchRequest : Type 0 where
  pub scheduled_at : Option ℕ
  pub duration_min : Option ℕ
  pub cancel : Bool

-- The calendar's event and join link, the key of the ICS file, and the new ids.
pub record CreateCall : Type 0 where
  pub now : ℕ
  pub fresh : Uuid
  pub gcal_request : Uuid
  pub calendar : Option (String × String)
  pub ics : Option String

pub record PatchCall : Type 0 where
  pub now : ℕ
  pub calendar_ok : Bool
  pub ics : Option String

-- `Field(ge=15, le=480)`
abbrev pub valid_duration : ℕ → Bool
valid_duration d = leb 15 d && leb d 480

abbrev pub end_of : ℕ → ℕ → ℕ
end_of start duration_min = start + duration_min * 60_000_000

abbrev pub is_cancelled : MeetingStatus → Bool
is_cancelled cancelled = true
is_cancelled _ = false

-- Does the meeting take a part of the time from `start` to `stop`?
abbrev pub conflicts : Uuid → ℕ → ℕ → Meeting → Bool
conflicts collab start stop m =
    m.collab_id == collab
    && not (is_cancelled m.status)
    && ltb m.scheduled_at stop
    && ltb start (end_of m.scheduled_at m.duration_min)

abbrev pub new_meeting : Uuid → Uuid → MeetingCreateRequest → CreateCall → String × String → Meeting
new_meeting collab profile body call event = record {
  id = call.fresh;
  collab_id = collab;
  organizer_profile_id = profile;
  scheduled_at = body.scheduled_at;
  duration_min = body.duration_min;
  join_url = event.1;
  ics_s3_key = call.ics;
  gcal_event_id = some event.0;
  gcal_request_id = call.gcal_request;
  status = scheduled;
  bot_enabled = body.bot_enabled;
  bot_status = no_bot;
  recall_bot_id = none;
  cancelled_at = none;
  created_at = call.now;
}

-- The insert, with the primary key.
abbrev pub insert_meeting : Meeting → MeetingDb → Answer Meeting × MeetingDb
insert_meeting m db = elim (find_meeting m.id db.meetings) [
  | some old ↦ (raises server_error, db)
  | none ↦ (
    ok m,
    record db {
      meetings = m ∷ db.meetings;
      emitted = meeting_scheduled m.id m.collab_id m.organizer_profile_id ∷ db.emitted;
    },
  )
]

abbrev pub create_free :
    Uuid
    → Uuid
    → MeetingCreateRequest
    → CreateCall
    → MeetingDb
    → Option (String × String)
    → Answer Meeting × MeetingDb
create_free collab profile body call db none = (raises bad_gateway, db)
create_free collab profile body call db (some event) =
    insert_meeting (new_meeting collab profile body call event) db

abbrev pub create_checked :
    Uuid
    → Uuid
    → MeetingCreateRequest
    → CreateCall
    → MeetingDb
    → Option Meeting
    → Answer Meeting × MeetingDb
create_checked collab profile body call db (some m) = (raises (meeting_conflict m.id), db)
create_checked collab profile body call db none =
    create_free collab profile body call db call.calendar

unfoldable pub create_meeting :
    Uuid → Uuid → MeetingCreateRequest → CreateCall → MeetingDb → Answer Meeting × MeetingDb
create_meeting collab profile body call db =
    if valid_duration body.duration_min
    then create_checked collab profile body call db (
        find (conflicts collab body.scheduled_at (end_of body.scheduled_at body.duration_min))
          db.meetings)
    else (raises unprocessable, db)

abbrev pub valid_patch : Option ℕ → Bool
valid_patch none = true
valid_patch (some d) = valid_duration d

abbrev or_else : Option ℕ → ℕ → ℕ
or_else none d = d
or_else (some a) d = a

abbrev pub has_change : MeetingPatchRequest → Bool
has_change body = elim body.scheduled_at [
  | some t ↦ true
  | none ↦ elim body.duration_min [ some d ↦ true | none ↦ false ]
]

-- `if meeting.gcal_event_id`
abbrev pub has_event : Option String → Bool
has_event none = false
has_event (some e) = not (str_eq e "")

abbrev kept_ics : Option String → Option String → Option String
kept_ics none old = old
kept_ics (some key) old = some key

abbrev pub rescheduled : MeetingPatchRequest → PatchCall → Meeting → Meeting
rescheduled body call m = record m {
  scheduled_at = or_else body.scheduled_at m.scheduled_at;
  duration_min = or_else body.duration_min m.duration_min;
  ics_s3_key = kept_ics call.ics m.ics_s3_key;
}

abbrev pub cancel_at : ℕ → Meeting → Meeting
cancel_at now m = record m { status = cancelled; cancelled_at = some now }

abbrev pub patch_open :
    Uuid → MeetingPatchRequest → PatchCall → MeetingDb → Meeting → Answer Unit × MeetingDb
patch_open profile body call db m =
    if body.cancel
    then (let after = update_meeting m.id (cancel_at call.now) db in
        (ok tt, record after { emitted = meeting_cancelled m.id m.collab_id profile ∷ db.emitted }))
    else if not (has_change body)
    then (ok tt, db)
    else if has_event m.gcal_event_id && not call.calendar_ok
    then (raises bad_gateway, db)
    else (ok tt, update_meeting m.id (rescheduled body call) db)

unfoldable pub patch_meeting :
    Uuid → Uuid → MeetingPatchRequest → PatchCall → MeetingDb → Answer Unit × MeetingDb
patch_meeting id profile body call db =
    if not (valid_patch body.duration_min)
    then (raises unprocessable, db)
    else elim (find_meeting id db.meetings) [
      | none ↦ (raises not_found, db)
      | some m ↦
          if is_over m.status then (raises unprocessable, db) else patch_open profile body call db m
    ]
