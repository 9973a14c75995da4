-- ===== src/Support/Tickets/Unresolved.antt =====
-- No request to the service resolves a ticket or pauses its clock.
use colab.Prelude.{
  ℕ, String, Bool, true, false, not, ◌&&◌, Bool-cases, Option-cases, ◌≡◌, refl, inl, inr, Option,
  none, some, List, [], ◌∷◌, ◌==◌, select, update_where, All, All-update_where, All-map, All-find,
  arith,
}
use colab.Prelude.Uuid.{Uuid}
use colab.Support.Tickets.Rows.{
  Category, Tier, opened, in_progress, pending_user, resolved, closed, Ticket, SupportDb,
  SupportError, not_found, forbidden, unprocessable, raises,
}
use colab.Support.Tickets.{
  TicketCall, new_ticket, create_ticket, find_ticket, replied, reply_ticket, is_resolved,
  submit_csat, ack_marked, resolve_marked, is_ack_late, is_resolve_late, mark_ack, mark_resolve,
  sla_scan,
}

-- What writes tickets: three endpoints and the scan.
pub data Op : Type 0 where
  creating : Uuid → Tier → Category → String → String → TicketCall → Op
  replying : Uuid → Uuid → Bool → String → ℕ → Op
  rating : Uuid → Uuid → ℕ → Option String → Op
  scanning : ℕ → Op

abbrev pub no_tickets : SupportDb
no_tickets = record { tickets = []; events = []; csats = []; published = [] }

-- Open or in progress, with a clock that never stood still.
abbrev is_working : Ticket → Bool
is_working t =
    elim t.status [
      | opened ↦ true
      | in_progress ↦ true
      | pending_user ↦ false
      | resolved ↦ false
      | closed ↦ false
    ]
    && elim t.sla_paused_at [ none ↦ true | some since ↦ false ]
    && (t.sla_paused_seconds == 0)

abbrev AllWorking : List Ticket → Type 0
AllWorking = All (λ t. is_working t ≡ true)

working-replied :
    (is_agent : Bool) (now : ℕ) (t : Ticket)
    → is_working t ≡ true
    → is_working (replied is_agent now t) ≡ true
working-replied true now t h = ground (arith, h)
working-replied false now t h = ground (arith, h)

working-unresolved : (t : Ticket) → is_working t ≡ true → is_resolved t.status ≡ false
working-unresolved t h = ground (arith, h)

working-unpaused : (t : Ticket) → is_working t ≡ true → t.sla_paused_seconds ≡ 0
working-unpaused t h = ground (arith, h)

working-update :
    (p : Ticket → Bool) (f : Ticket → Ticket) (ts : List Ticket)
    → ((t : Ticket) → is_working t ≡ true → is_working (f t) ≡ true)
    → AllWorking ts
    → AllWorking (update_where p f ts)
working-update p f ts keep h =
    All-update_where (λ t. is_working t ≡ true) (λ t. is_working t ≡ true) p f ts
      (λ t w _. keep t w) (λ t w _. w) h

ack-AllWorking :
    (now : ℕ) (ts : List Ticket) (db : SupportDb)
    → AllWorking db.tickets
    → AllWorking (mark_ack now ts db).tickets
ack-AllWorking now [] db h = h
ack-AllWorking now (t ∷ ts) db h =
    ack-AllWorking now ts _
      (working-update (λ r. r.id == t.id) (ack_marked now) db.tickets (λ r w. w) h)

resolve-AllWorking :
    (now : ℕ) (ts : List Ticket) (db : SupportDb)
    → AllWorking db.tickets
    → AllWorking (mark_resolve now ts db).tickets
resolve-AllWorking now [] db h = h
resolve-AllWorking now (t ∷ ts) db h =
    resolve-AllWorking now ts _
      (working-update (λ r. r.id == t.id) (resolve_marked now) db.tickets (λ r w. w) h)

reply-AllWorking :
    (id user : Uuid) (is_agent : Bool) (body : String) (now : ℕ) (db : SupportDb)
    → AllWorking db.tickets
    → AllWorking (reply_ticket id user is_agent body now db).1.tickets
unfolding reply_ticket
reply-AllWorking id user is_agent body now db h = elim (Option-cases (find_ticket id db.tickets)) [
  | inl missing ↦ rw (missing, reply_ticket) h
  | inr (t, found) ↦ elim (Bool-cases (not (t.user_id == user) && not is_agent)) [
    | inl foreign ↦ rw (found, foreign, reply_ticket) h
    | inr allowed ↦
        rw (found, allowed, reply_ticket)
          (working-update (λ r. r.id == id) (replied is_agent now) db.tickets
            (working-replied is_agent now) h)
  ]
]

module _ (text : ℕ → String) where
  rating-tickets :
      (id user : Uuid) (score : ℕ) (comment : Option String) (db : SupportDb)
      → (submit_csat text id user score comment db).1.tickets ≡ db.tickets
  unfolding submit_csat
  rating-tickets id user score comment db = elim (Option-cases (find_ticket id db.tickets)) [
    | inl missing ↦ rw (missing, submit_csat) refl
    | inr (t, found) ↦ rw (found, submit_csat) (ground arith)
  ]

  pub apply : Op → SupportDb → SupportDb
  apply (creating user tier category subject body call) db =
      create_ticket user tier category subject body call db
  apply (replying id user is_agent body now) db = (reply_ticket id user is_agent body now db).1
  apply (rating id user score comment) db = (submit_csat text id user score comment db).1
  apply (scanning now) db = sla_scan now db

  pub run : List Op → SupportDb → SupportDb
  run [] db = db
  run (op ∷ ops) db = run ops (apply op db)

  apply-AllWorking :
      (op : Op) (db : SupportDb) → AllWorking db.tickets → AllWorking (apply op db).tickets
  unfolding apply create_ticket sla_scan new_ticket
  apply-AllWorking (creating user tier category subject body call) db h = (refl, h)
  apply-AllWorking (replying id user is_agent body now) db h =
      reply-AllWorking id user is_agent body now db h
  apply-AllWorking (rating id user score comment) db h =
      rw (rating-tickets id user score comment db) h
  apply-AllWorking (scanning now) db h =
      let after : SupportDb = mark_ack now (select (is_ack_late now) db.tickets) db in
      resolve-AllWorking now (select (is_resolve_late now) after.tickets) after
        (ack-AllWorking now (select (is_ack_late now) db.tickets) db h)

  run-AllWorking :
      (ops : List Op) (db : SupportDb) → AllWorking db.tickets → AllWorking (run ops db).tickets
  unfolding run
  run-AllWorking [] db h = h
  run-AllWorking (op ∷ ops) db h = run-AllWorking ops (apply op db) (apply-AllWorking op db h)

  working_refused :
      (id user : Uuid) (score : ℕ) (comment : Option String) (db : SupportDb)
      → AllWorking db.tickets
      → (e : SupportError) × ((submit_csat text id user score comment db).0 ≡ raises e)
  unfolding submit_csat
  working_refused id user score comment db h = elim (Option-cases (find_ticket id db.tickets)) [
    | inl missing ↦ (not_found, rw (missing, submit_csat) refl)
    | inr (t, found) ↦
        let pending =
          working-unresolved t
            (All-find (λ r. is_working r ≡ true) (λ r. r.id == id) db.tickets h found).0 in
        elim (Bool-cases (t.user_id == user)) [
          | inl mine ↦ (unprocessable, rw (found, mine, pending, submit_csat) refl)
          | inr foreign ↦ (forbidden, rw (found, foreign, submit_csat) refl)
        ]
  ]

  -- Whatever requests and scans came before, from empty tables, every rating of a ticket is refused, and no ticket's
  -- clock was ever paused.
  pub submit_csat-refused :
      (ops : List Op) (id user : Uuid) (score : ℕ) (comment : Option String)
      → ((e : SupportError) × ((submit_csat text id user score comment (run ops no_tickets)).0
            ≡ raises e))
        × All (λ t. t.sla_paused_seconds ≡ 0) (run ops no_tickets).tickets
  submit_csat-refused ops id user score comment =
      let h = run-AllWorking ops no_tickets tt in
      (
        working_refused id user score comment (run ops no_tickets) h,
        All-map (λ t. is_working t ≡ true) (λ t. t.sla_paused_seconds ≡ 0)
            (run ops no_tickets).tickets working-unpaused h,
      )
