-- ===== src/Support/Tickets.antt =====
-- The tickets of services/support-svc: app/sla.py, app/routers/tickets.py and the scan of app/workers/sla_tasks.py.
-- A request comes with the user that the gateway found; the text of a score is a parameter.
pub mod Marks
pub mod Rows
pub mod Scan
pub mod Unresolved
use colab.Prelude.{
  ℕ, ◌+◌, ◌-◌, ◌*◌, ◌/◌, String, Bool, true, false, not, ◌&&◌, ◌||◌, Option, none, some, List, [],
  ◌∷◌, ◌==◌, ltb, find, any, select, update_where, if◌then◌else◌,
}
use colab.Prelude.Time.{hours}
use colab.Prelude.Uuid.{Uuid}
use colab.Support.Tickets.Rows.{
  Category, harassment_threats, ip_dmca, payment, technical, other, Tier, free, premium,
  premium_pro, TicketStatus, opened, in_progress, pending_user, resolved, closed, normal, critical,
  Ticket, EventKind, created, reply, csat, sla_breach, sla_resolve_breached, user, agent, system,
  TicketEvent, Csat, ticket_created, ack_breached, resolve_breached, csat_submitted, SupportDb,
  not_found, forbidden, unprocessable, conflict, Answer, ok, raises,
}

abbrev ack_hours : Category → ℕ
ack_hours harassment_threats = 4
ack_hours ip_dmca = 24
ack_hours payment = 24
ack_hours technical = 24
ack_hours other = 48

abbrev resolve_hours : Category → ℕ
resolve_hours harassment_threats = 24
resolve_hours ip_dmca = 168
resolve_hours payment = 72
resolve_hours technical = 120
resolve_hours other = 168

-- The hours until the first answer is due, halved for premium_pro.
abbrev ack_hours_for : Category → Tier → ℕ
ack_hours_for category premium_pro = ack_hours category / 2
ack_hours_for category _ = ack_hours category

compute_sla_due : Category → Tier → ℕ → ℕ × ℕ
compute_sla_due category tier created_at =
    (created_at + hours (ack_hours_for category tier), created_at + hours (resolve_hours category))

-- What is new in a request that creates a ticket: its time and the id of the row.
pub record TicketCall : Type 0 where
  pub now : ℕ
  pub fresh : Uuid

unfoldable pub new_ticket : Uuid → Tier → Category → String → String → TicketCall → Ticket
unfolding compute_sla_due
new_ticket user_id tier category subject body call =
    let (ack_due, resolve_due) = compute_sla_due category tier call.now in
    record {
      id = call.fresh;
      user_id = user_id;
      category = category;
      subject = subject;
      body = body;
      status = opened;
      priority = normal;
      tier_at_creation = tier;
      sla_ack_due = ack_due;
      sla_resolve_due = resolve_due;
      sla_paused_seconds = 0;
      sla_ack_breached_at = none;
      sla_resolve_breached_at = none;
      sla_paused_at = none;
      first_response_at = none;
      resolved_at = none;
      updated_at = call.now;
    }

-- The categories that moderation-svc is told of.
abbrev is_moderated : Category → Bool
is_moderated harassment_threats = true
is_moderated ip_dmca = true
is_moderated _ = false

unfoldable pub create_ticket :
    Uuid → Tier → Category → String → String → TicketCall → SupportDb → SupportDb
create_ticket user_id tier category subject body call db =
    let e : TicketEvent = record {
      ticket_id = call.fresh;
      kind = created;
      actor = user;
      actor_id = some user_id;
      body = none;
    } in
    record db {
      tickets = new_ticket user_id tier category subject body call ∷ db.tickets;
      events = e ∷ db.events;
      published =
          if is_moderated category
          then ticket_created call.fresh user_id category ∷ db.published
          else db.published;
    }

abbrev pub find_ticket : Uuid → List Ticket → Option Ticket
find_ticket id = find (λ t. t.id == id)

abbrev is_pending : TicketStatus → Bool
is_pending pending_user = true
is_pending _ = false

abbrev is_unset : Option ℕ → Bool
is_unset o = elim o [ none ↦ true | some t ↦ false ]

-- The whole seconds since a pause began, on a clock that does not run back.
abbrev resumed : ℕ → Ticket → Ticket
resumed now t = elim t.sla_paused_at [
  | none ↦ record t { status = in_progress }
  | some since ↦ record t {
    sla_paused_seconds = t.sla_paused_seconds + (now - since) / 1_000_000;
    sla_paused_at = none;
    status = in_progress;
  }
]

-- What a reply changes of its ticket, for an agent or for the user.
abbrev pub replied : Bool → ℕ → Ticket → Ticket
replied true now t =
    if is_unset t.first_response_at
    then record t { first_response_at = some now; status = in_progress; updated_at = now }
    else record t { updated_at = now }
replied false now t =
    if is_pending t.status
    then record (resumed now t) { updated_at = now }
    else record t { updated_at = now }

pub reply_ticket : Uuid → Uuid → Bool → String → ℕ → SupportDb → Answer Unit × SupportDb
reply_ticket id user_id is_agent body now db = elim (find_ticket id db.tickets) [
  | none ↦ (raises not_found, db)
  | some t ↦
      if not (t.user_id == user_id) && not is_agent
      then (raises forbidden, db)
      else (let e : TicketEvent = record {
        ticket_id = id;
        kind = reply;
        actor = if is_agent then agent else user;
        actor_id = some user_id;
        body = some body;
      } in
          (
            ok tt,
            record db {
              tickets = update_where (λ r. r.id == id) (replied is_agent now) db.tickets;
              events = e ∷ db.events;
            },
          ))
]

abbrev pub is_resolved : TicketStatus → Bool
is_resolved resolved = true
is_resolved _ = false

-- `text` is Python's `str` of a score.
pub submit_csat :
    (ℕ → String) → Uuid → Uuid → ℕ → Option String → SupportDb → Answer Unit × SupportDb
submit_csat text id user_id score comment db = elim (find_ticket id db.tickets) [
  | none ↦ (raises not_found, db)
  | some t ↦
      if not (t.user_id == user_id)
      then (raises forbidden, db)
      else if not (is_resolved t.status)
      then (raises unprocessable, db)
      else if any (λ c. c.ticket_id == id) db.csats
      then (raises conflict, db)
      else (let c : Csat = record { ticket_id = id; score = score; comment = comment } in
          let e : TicketEvent = record {
            ticket_id = id;
            kind = csat;
            actor = user;
            actor_id = some user_id;
            body = some (text score);
          } in
          (
            ok tt,
            record db {
              csats = c ∷ db.csats;
              events = e ∷ db.events;
              published = csat_submitted id user_id score ∷ db.published;
            },
          ))
]

-- `status NOT IN ('resolved', 'closed')`
abbrev is_live : TicketStatus → Bool
is_live resolved = false
is_live closed = false
is_live _ = true

abbrev paused : Ticket → ℕ
paused t = t.sla_paused_seconds * 1_000_000

abbrev pub is_ack_late : ℕ → Ticket → Bool
is_ack_late now t =
    is_unset t.first_response_at
    && is_unset t.sla_ack_breached_at
    && is_live t.status
    && ltb (t.sla_ack_due + paused t) now

abbrev pub is_resolve_late : ℕ → Ticket → Bool
is_resolve_late now t =
    is_unset t.resolved_at
    && is_unset t.sla_resolve_breached_at
    && is_live t.status
    && ltb (t.sla_resolve_due + paused t) now

abbrev pub ack_marked : ℕ → Ticket → Ticket
ack_marked now t = record t {
  sla_ack_breached_at = some now;
  priority = critical;
  updated_at = now;
}

abbrev pub resolve_marked : ℕ → Ticket → Ticket
resolve_marked now t = record t {
  sla_resolve_breached_at = some now;
  priority = critical;
  updated_at = now;
}

abbrev system_event : EventKind → String → Ticket → TicketEvent
system_event kind body t = record {
  ticket_id = t.id;
  kind = kind;
  actor = system;
  actor_id = none;
  body = some body;
}

abbrev pub mark_ack : ℕ → List Ticket → SupportDb → SupportDb
mark_ack now [] db = db
mark_ack now (t ∷ ts) db = mark_ack now ts (record db {
  tickets = update_where (λ r. r.id == t.id) (ack_marked now) db.tickets;
  events = system_event sla_breach "Ack SLA breached" t ∷ db.events;
  published = ack_breached t.id t.user_id t.category ∷ db.published;
})

abbrev pub mark_resolve : ℕ → List Ticket → SupportDb → SupportDb
mark_resolve now [] db = db
mark_resolve now (t ∷ ts) db = mark_resolve now ts (record db {
  tickets = update_where (λ r. r.id == t.id) (resolve_marked now) db.tickets;
  events = system_event sla_resolve_breached "Resolve SLA breached" t ∷ db.events;
  published = resolve_breached t.id t.user_id t.category ∷ db.published;
})

pub sla_scan : ℕ → SupportDb → SupportDb
sla_scan now db =
    let after = mark_ack now (select (is_ack_late now) db.tickets) db in
    mark_resolve now (select (is_resolve_late now) after.tickets) after
