-- ===== src/Support/Tests.antt =====
-- Runs of the ticket endpoints: one ticket, which is answered, rated and scanned.
use colab.Prelude.{arith, some, ℕ, String, true, false, none, List, [], ◌∷◌, ◌≡◌, refl, any, All}
use colab.Prelude.Time.{hours}
use colab.Support.Tickets.Rows.{Ticket, payment, premium_pro, SupportDb, SupportError, raises}
use colab.Support.Tickets.{
  find_ticket, TicketCall, submit_csat, is_ack_late, sla_scan, create_ticket, new_ticket,
}
use colab.Support.Tickets.Unresolved.{
  Op, creating, replying, scanning, no_tickets, run, submit_csat-refused,
}
use colab.Support.Tickets.Marks.{IsOne, IsScanned, sla_scan_marks}

abbrev text : ℕ → String
text n = "5"

abbrev call : TicketCall
call = record { now = 0; fresh = 3 }

abbrev ops : List Op
ops =
    creating 7 premium_pro payment "charged twice" "please help" call
    ∷ scanning (hours 13)
    ∷ replying 3 9 true "done" (hours 14)
    ∷ replying 3 7 false "thanks" (hours 15)
    ∷ []

abbrev one_ticket : SupportDb
unfolding create_ticket
one_ticket = create_ticket 7 premium_pro payment "charged twice" "please help" call no_tickets

-- The first answer to a paying user's payment ticket is due after 12 of the 24 hours.
late_after_12_hours : any (is_ack_late (hours 13)) one_ticket.tickets ≡ true
unfolding one_ticket create_ticket new_ticket
late_after_12_hours = refl

not_late_at_12_hours : any (is_ack_late (hours 12)) one_ticket.tickets ≡ false
unfolding one_ticket create_ticket new_ticket
not_late_at_12_hours = refl

submit_csat-refused_example :
    ((e : SupportError) × ((submit_csat text 3 7 5 none (run text ops no_tickets)).0 ≡ raises e))
    × All (λ t. t.sla_paused_seconds ≡ 0) (run text ops no_tickets).tickets
submit_csat-refused_example = submit_csat-refused text ops 3 7 5 none

one_row : IsOne 3 one_ticket.tickets
unfolding one_ticket create_ticket new_ticket
one_row = omega arith

sla_scan_marks_example :
    (t' : Ticket) × (find_ticket 3 (sla_scan (hours 13) one_ticket).tickets ≡ some t')
    × IsScanned (hours 13) (new_ticket 7 premium_pro payment "charged twice" "please help" call) t'
    × (sla_scan (hours 13) (sla_scan (hours 13) one_ticket) ≡ sla_scan (hours 13) one_ticket)
unfolding one_ticket new_ticket
sla_scan_marks_example = sla_scan_marks (hours 13) one_ticket 3 one_row refl
