-- ===== src/Meeting/Bot.antt =====
-- The consents and the recording bot: `give_bot_consent`, `revoke_bot_consent` and `start_bot` of
-- services/meeting-svc/app/routers/meetings.py, `_dispatch_recall_bot_async` of app/workers/bot_tasks.py and
-- `_process_recall_webhook_async` of app/workers/webhook_tasks.py.
pub mod Ops
pub mod Frames
pub mod Kept
pub mod Writes
pub mod Requests
pub mod Consent
use colab.Prelude.{
  ℕ, String, Bool, true, false, not, ◌&&◌, ◌||◌, Option, none, some, List, [], ◌∷◌, ◌++◌, ◌==◌, ltb,
  leb, str_eq, find, any, length, select, update_where, Scalar, no_row, one_row, multiple_rows,
  scalar_one_or_none, if◌then◌else◌,
}
use colab.Prelude.Uuid.{Uuid, uuid_str}
use Prim.Native.String.{◌++◌ as append}
use colab.Meeting.Recall.{Attempt, create_bot}
use colab.Meeting.Rows.{
  BotStatus, no_bot, requested, joining, joined, left, failed, ended, Meeting, MeetingBotConsent,
  MeetingArtifact, transcript, recording, bot_failed, transcript_ready, Post, MeetingDb, not_found,
  unprocessable, server_error, Answer, ok, raises, find_meeting, update_meeting, is_over,
}

-- `bot_status in ("none", "requested")`
abbrev pub is_undispatched : BotStatus → Bool
is_undispatched no_bot = true
is_undispatched requested = true
is_undispatched _ = false

abbrev pub is_active_for : Uuid → MeetingBotConsent → Bool
is_active_for id c = c.meeting_id == id && elim c.revoked_at [ none ↦ true | some t ↦ false ]

abbrev pub active_count : Uuid → List MeetingBotConsent → ℕ
active_count id cs = length (select (is_active_for id) cs)

abbrev pub is_of : Uuid → Uuid → MeetingBotConsent → Bool
is_of id profile c = c.meeting_id == id && c.profile_id == profile

-- The upsert on the unique pair of a meeting and a profile.
abbrev pub upsert_consent : Uuid → Uuid → ℕ → List MeetingBotConsent → List MeetingBotConsent
upsert_consent id profile now cs =
    if any (is_of id profile) cs
    then update_where (is_of id profile) (λ c. record c { consented_at = now; revoked_at = none })
        cs
    else record { meeting_id = id; profile_id = profile; consented_at = now; revoked_at = none }
      ∷ cs

abbrev pub set_bot : BotStatus → Meeting → Meeting
set_bot s m = record m { bot_status = s }

abbrev pub is_none : BotStatus → Bool
is_none no_bot = true
is_none _ = false

abbrev pub is_requested : BotStatus → Bool
is_requested requested = true
is_requested _ = false

-- Whether both have consented; the second consent asks for the bot, at the time of the meeting.
abbrev pub consent_open : Uuid → ℕ → MeetingDb → Meeting → Answer Bool × MeetingDb
consent_open profile now db m =
    let after = record db { consents = upsert_consent m.id profile now db.consents } in
    let both = leb 2 (active_count m.id after.consents) in
    (
      ok both,
      if both && is_none m.bot_status then update_meeting m.id (set_bot requested) after else after,
    )

unfoldable pub give_bot_consent : Uuid → Uuid → ℕ → MeetingDb → Answer Bool × MeetingDb
give_bot_consent id profile now db = elim (find_meeting id db.meetings) [
  | none ↦ (raises not_found, db)
  | some m ↦
      if not m.bot_enabled || is_over m.status
      then (raises unprocessable, db)
      else consent_open profile now db m
]

abbrev pub revoke_open : Uuid → ℕ → MeetingDb → Meeting → Answer Unit × MeetingDb
revoke_open profile now db m =
    let revoked : List MeetingBotConsent =
      update_where (λ c. is_active_for m.id c && c.profile_id == profile)
        (λ c. record c { revoked_at = some now }) db.consents in
    if any (λ c. is_active_for m.id c && c.profile_id == profile) db.consents
    then (
      ok tt,
      if is_requested m.bot_status
          then update_meeting m.id (set_bot no_bot) (record db { consents = revoked })
          else record db { consents = revoked },
    )
    else (raises not_found, db)

unfoldable pub revoke_bot_consent : Uuid → Uuid → ℕ → MeetingDb → Answer Unit × MeetingDb
revoke_bot_consent id profile now db = elim (find_meeting id db.meetings) [
  | none ↦ (raises not_found, db)
  | some m ↦
      if is_undispatched m.bot_status
      then revoke_open profile now db m
      else (raises unprocessable, db)
]

unfoldable pub start_bot : Uuid → MeetingDb → Answer BotStatus × MeetingDb
start_bot id db = elim (find_meeting id db.meetings) [
  | none ↦ (raises not_found, db)
  | some m ↦
      if not m.bot_enabled || ltb (active_count m.id db.consents) 2
      then (raises unprocessable, db)
      else if not (is_undispatched m.bot_status)
      then (ok m.bot_status, db)
      else (ok requested, update_meeting m.id (set_bot requested) db)
]

-- A delivery of the bot task: what comes back for each of its requests, and whether it comes to its commit. A worker
-- that dies before it leaves the row as it was, and `acks_late` has the task delivered again.
pub record Delivery : Type 0 where
  pub recall : ℕ → Attempt
  pub commits : Bool

abbrev pub posted : Uuid → Bool → List Attempt → List Post → List Post
posted id commits [] posts = posts
posted id commits (a ∷ attempts) posts =
    record { meeting_id = id; made = a.made; committed = commits }
    ∷ posted id commits attempts posts

-- What the task commits, with the bot's id that the client returns, or `none` where it raises.
abbrev pub settled : Option String → MeetingDb → Meeting → MeetingDb
settled none db m = record (update_meeting m.id (set_bot failed) db) {
  emitted = bot_failed m.id m.collab_id ∷ db.emitted;
}
settled (some bot) db m =
    update_meeting m.id (λ r. record r { recall_bot_id = some bot; bot_status = joining }) db

abbrev pub dispatch_open : Delivery → MeetingDb → Meeting → MeetingDb
dispatch_open d db m =
    let sent = create_bot d.recall in
    record (if d.commits then settled sent.1 db m else db) {
      posts = posted m.id d.commits sent.0 db.posts;
    }

unfoldable pub dispatch_recall_bot : Uuid → Delivery → MeetingDb → MeetingDb
dispatch_recall_bot id delivery db = elim (find_meeting id db.meetings) [
  | none ↦ db
  | some m ↦ if is_requested m.bot_status then dispatch_open delivery db m else db
]

-- `status.code` of a webhook.
pub data RecallCode : Type 0 where
  joining_call in_call_recording call_ended done fatal unknown : RecallCode

-- A webhook: the size of the transcript and whether the recording's link was stored, where it names them.
pub record RecallPayload : Type 0 where
  pub code : RecallCode
  pub transcript_bytes : Option ℕ
  pub recording_stored : Bool

-- `_ingest_artifacts`: the rows that it adds.
abbrev ingested : RecallPayload → Meeting → List MeetingArtifact → List MeetingArtifact
ingested p m rows =
    let prefix = append "artifacts/meetings/" (uuid_str m.id) in
    let first : List MeetingArtifact = elim p.transcript_bytes [
      | none ↦ rows
      | some n ↦
          record {
            meeting_id = m.id;
            kind = transcript;
            s3_key = append prefix "/transcript.json";
            size_bytes = some n;
          }
          ∷ rows
    ] in
    if p.recording_stored
    then record {
      meeting_id = m.id;
      kind = recording;
      s3_key = append prefix "/recording_url.txt";
      size_bytes = none;
    }
      ∷ first
    else first

-- What follows by `_STATUS_MAP`.
abbrev pub webhook_for : RecallPayload → RecallCode → MeetingDb → Meeting → MeetingDb
webhook_for p fatal db m = record (update_meeting m.id (set_bot failed) db) {
  emitted = bot_failed m.id m.collab_id ∷ db.emitted;
}
webhook_for p done db m =
    record (update_meeting m.id (λ r. record r { status = ended; bot_status = left }) db) {
      artifacts = ingested p m db.artifacts;
      emitted = transcript_ready m.id m.collab_id ∷ db.emitted;
    }
webhook_for p joining_call db m = update_meeting m.id (set_bot joining) db
webhook_for p in_call_recording db m = update_meeting m.id (set_bot joined) db
webhook_for p call_ended db m = update_meeting m.id (set_bot left) db
webhook_for p unknown db m = db

abbrev pub has_bot : String → Meeting → Bool
has_bot bot m = elim m.recall_bot_id [ none ↦ false | some b ↦ str_eq b bot ]

-- `none` where more than one meeting has the bot, and the query raises.
unfoldable pub process_recall_webhook : String → RecallPayload → MeetingDb → Option MeetingDb
process_recall_webhook bot p db = elim (scalar_one_or_none (select (has_bot bot) db.meetings)) [
  | no_row ↦ some db
  | one_row m ↦ some (webhook_for p p.code db m)
  | multiple_rows ↦ none
]
