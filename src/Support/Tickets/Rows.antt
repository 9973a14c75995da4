-- ===== src/Support/Tickets/Rows.antt =====
-- The tables of services/support-svc/app/models.py that tickets use, the events that are published and the errors.
use colab.Prelude.{ℕ, String, Option, List}
use colab.Prelude.Uuid.{Uuid}

pub data Category : Type 0 where
  harassment_threats ip_dmca payment technical other : Category

pub data Tier : Type 0 where
  free premium premium_pro : Tier

-- `opened` is the status 'open'.
pub data TicketStatus : Type 0 where
  opened in_progress pending_user resolved closed : TicketStatus

pub data Priority : Type 0 where
  normal critical : Priority

pub record Ticket : Type 0 where
  pub id : Uuid
  pub user_id : Uuid
  pub category : Category
  pub subject : String
  pub body : String
  pub status : TicketStatus
  pub priority : Priority
  pub tier_at_creation : Tier
  pub sla_ack_due : ℕ
  pub sla_resolve_due : ℕ
  pub sla_paused_seconds : ℕ
  pub sla_ack_breached_at : Option ℕ
  pub sla_resolve_breached_at : Option ℕ
  pub sla_paused_at : Option ℕ
  pub first_response_at : Option ℕ
  pub resolved_at : Option ℕ
  pub updated_at : ℕ

pub data EventKind : Type 0 where
  created reply csat sla_breach sla_resolve_breached : EventKind

pub data Actor : Type 0 where
  user agent system : Actor

pub record TicketEvent : Type 0 where
  pub ticket_id : Uuid
  pub kind : EventKind
  pub actor : Actor
  pub actor_id : Option Uuid
  pub body : Option String

pub record Csat : Type 0 where
  pub ticket_id : Uuid
  pub score : ℕ
  pub comment : Option String

pub data Published : Type 0 where
  ticket_created ack_breached resolve_breached : Uuid → Uuid → Category → Published
  csat_submitted : Uuid → Uuid → ℕ → Published

pub record SupportDb : Type 0 where
  pub tickets : List Ticket
  pub events : List TicketEvent
  pub csats : List Csat
  pub published : List Published

pub data SupportError : Type 0 where
  not_found forbidden unprocessable conflict : SupportError

pub data Answer (A : Type 0) : Type 0 where
  ok : A → Answer A
  raises : SupportError → Answer A
