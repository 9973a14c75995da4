-- ===== src/Meeting/Rows.antt =====
-- The tables of services/meeting-svc/app/models.py, what the endpoints raise, and the events.
use colab.Prelude.{ℕ, String, Bool, true, false, Option, List, ◌==◌, find, update_where}
use colab.Prelude.Uuid.{Uuid}

pub data MeetingStatus : Type 0 where
  scheduled started ended cancelled : MeetingStatus

-- `none` is `no_bot`.
pub data BotStatus : Type 0 where
  no_bot requested joining joined left failed : BotStatus

pub record Meeting : Type 0 where
  pub id : Uuid
  pub collab_id : Uuid
  pub organizer_profile_id : Uuid
  pub scheduled_at : ℕ
  pub duration_min : ℕ
  pub join_url : String
  pub ics_s3_key : Option String
  pub gcal_event_id : Option String
  pub gcal_request_id : Uuid
  pub status : MeetingStatus
  pub bot_enabled : Bool
  pub bot_status : BotStatus
  pub recall_bot_id : Option String
  pub cancelled_at : Option ℕ
  pub created_at : ℕ

pub record MeetingBotConsent : Type 0 where
  pub meeting_id : Uuid
  pub profile_id : Uuid
  pub consented_at : ℕ
  pub revoked_at : Option ℕ

pub data ArtifactKind : Type 0 where
  transcript recording summary : ArtifactKind

pub record MeetingArtifact : Type 0 where
  pub meeting_id : Uuid
  pub kind : ArtifactKind
  pub s3_key : String
  pub size_bytes : Option ℕ

pub data MeetingEvent : Type 0 where
  meeting_scheduled meeting_cancelled : Uuid → Uuid → Uuid → MeetingEvent
  bot_failed transcript_ready : Uuid → Uuid → MeetingEvent

-- A request to Recall.ai for a bot: its meeting, the bot that it made there, and whether the task that sent it came
-- to its commit.
pub record Post : Type 0 where
  pub meeting_id : Uuid
  pub made : Option String
  pub committed : Bool

-- The tables, the events that were sent, and every request for a bot.
pub record MeetingDb : Type 0 where
  pub meetings : List Meeting
  pub consents : List MeetingBotConsent
  pub artifacts : List MeetingArtifact
  pub emitted : List MeetingEvent
  pub posts : List Post

pub data MeetingError : Type 0 where
  not_found unprocessable bad_gateway server_error : MeetingError
  meeting_conflict : Uuid → MeetingError

pub data Answer (A : Type 0) : Type 0 where
  ok : A → Answer A
  raises : MeetingError → Answer A

abbrev pub find_meeting : Uuid → List Meeting → Option Meeting
find_meeting id = find (λ m. m.id == id)

abbrev pub update_meeting : Uuid → (Meeting → Meeting) → MeetingDb → MeetingDb
update_meeting id f db = record db { meetings = update_where (λ m. m.id == id) f db.meetings }

-- `status in ("ended", "cancelled")`
abbrev pub is_over : MeetingStatus → Bool
is_over ended = true
is_over cancelled = true
is_over _ = false
