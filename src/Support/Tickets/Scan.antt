-- ===== src/Support/Tickets/Scan.antt =====
-- A scan leaves no missed due date unmarked, and a second scan at the same time does nothing.
use colab.Prelude.{
  ℕ, Bool, true, false, ◌≡◌, refl, ◌∙◌, List, [], ◌∷◌, ◌==◌, ==_refl, any, any-update_where, select,
  update_where, All, All-update_where, All-map, if◌then◌else◌, arith,
}
use colab.Prelude.Uuid.{Uuid}
use colab.Support.Tickets.Rows.{Ticket, SupportDb}
use colab.Support.Tickets.{
  ack_marked, resolve_marked, is_ack_late, is_resolve_late, mark_ack, mark_resolve, sla_scan,
}

abbrev named_in : List Ticket → Uuid → Bool
named_in ts id = any (λ t. t.id == id) ts

module _ (p : Ticket → Bool) where
  -- Every row that passes the test has its id among those of `ts`.
  abbrev pub IsNamed : List Ticket → Ticket → Type 0
  IsNamed ts t = p t ≡ true → named_in ts t.id ≡ true

  IsNamed-further : (x : Ticket) (ts : List Ticket) (t : Ticket) → IsNamed ts t → IsNamed (x ∷ ts) t
  IsNamed-further x ts t h e = ground (arith, h e)

  clash : {b : Bool} → b ≡ true → b ≡ false → ⊥
  clash e n = cc

  pub select-IsNamed : (ts : List Ticket) → All (IsNamed (select p ts)) ts
  select-IsNamed [] = tt
  select-IsNamed (t ∷ ts) = choose (select-IsNamed ts) (p t) refl
    where
      choose :
          All (IsNamed (select p ts)) ts
          → (b : Bool) → p t ≡ b
          → All (IsNamed (if b then t ∷ select p ts else select p ts)) (t ∷ ts)
      choose rest true e = (
        (λ h. rw (==_refl t.id) refl),
        All-map (IsNamed (select p ts)) (IsNamed (t ∷ select p ts)) ts
            (IsNamed-further t (select p ts)) rest,
      )
      choose rest false e = ((λ h. absurd (clash h e)), rest)

  -- A row that no longer passes the test needs no name.
  pub strike :
      (t : Ticket) (ts rows : List Ticket) (f : Ticket → Ticket)
      → ((r : Ticket) → p (f r) ≡ false)
      → All (IsNamed (t ∷ ts)) rows
      → All (IsNamed ts) (update_where (λ r. r.id == t.id) f rows)
  strike t ts rows f gone h =
      All-update_where (IsNamed (t ∷ ts)) (IsNamed ts) (λ r. r.id == t.id) f rows
        (λ r n hit e. absurd (clash e (gone r))) (λ r n miss e. other r miss (n e)) h
    where
      other :
          (r : Ticket)
          → (r.id == t.id) ≡ false
          → named_in (t ∷ ts) r.id ≡ true
          → named_in ts r.id ≡ true
      other r miss n = ground (arith, miss, n)

  pub unnamed : (ts : List Ticket) → All (IsNamed []) ts → any p ts ≡ false
  unnamed [] h = refl
  unnamed (t ∷ ts) h = ground (arith, h.0, unnamed ts h.1)

  pub select_none : (ts : List Ticket) → any p ts ≡ false → select p ts ≡ []
  select_none [] h = refl
  select_none (t ∷ ts) h = ground (arith, h, select_none ts)

mark_ack-clears :
    (now : ℕ) (ts : List Ticket) (db : SupportDb)
    → All (IsNamed (is_ack_late now) ts) db.tickets
    → any (is_ack_late now) (mark_ack now ts db).tickets ≡ false
mark_ack-clears now [] db h = unnamed (is_ack_late now) db.tickets h
mark_ack-clears now (t ∷ ts) db h =
    mark_ack-clears now ts _
      (strike (is_ack_late now) t ts db.tickets (ack_marked now) (λ r. ground arith) h)

mark_resolve-clears :
    (now : ℕ) (ts : List Ticket) (db : SupportDb)
    → All (IsNamed (is_resolve_late now) ts) db.tickets
    → any (is_resolve_late now) (mark_resolve now ts db).tickets ≡ false
mark_resolve-clears now [] db h = unnamed (is_resolve_late now) db.tickets h
mark_resolve-clears now (t ∷ ts) db h =
    mark_resolve-clears now ts _
      (strike (is_resolve_late now) t ts db.tickets (resolve_marked now) (λ r. ground arith) h)

-- The second loop changes nothing that the first one looks at.
mark_resolve-ack :
    (now : ℕ) (ts : List Ticket) (db : SupportDb)
    → any (is_ack_late now) (mark_resolve now ts db).tickets ≡ any (is_ack_late now) db.tickets
mark_resolve-ack now [] db = refl
mark_resolve-ack now (t ∷ ts) db =
    mark_resolve-ack now ts _
    ∙ any-update_where (is_ack_late now) (λ r. r.id == t.id) (resolve_marked now) db.tickets
        (λ r. refl)

no_work :
    (now : ℕ) (db : SupportDb)
    → any (is_ack_late now) db.tickets ≡ false
    → any (is_resolve_late now) db.tickets ≡ false
    → sla_scan now db ≡ db
unfolding sla_scan
no_work now db a r =
    rw (select_none (is_ack_late now) db.tickets a, mark_ack)
      (rw (select_none (is_resolve_late now) db.tickets r, mark_resolve) refl)

scan_ack : (now : ℕ) (db : SupportDb) → any (is_ack_late now) (sla_scan now db).tickets ≡ false
unfolding sla_scan
scan_ack now db =
    let after : SupportDb = mark_ack now (select (is_ack_late now) db.tickets) db in
    mark_resolve-ack now (select (is_resolve_late now) after.tickets) after
    ∙ mark_ack-clears now (select (is_ack_late now) db.tickets) db
        (select-IsNamed (is_ack_late now) db.tickets)

scan_resolve :
    (now : ℕ) (db : SupportDb) → any (is_resolve_late now) (sla_scan now db).tickets ≡ false
unfolding sla_scan
scan_resolve now db =
    let after : SupportDb = mark_ack now (select (is_ack_late now) db.tickets) db in
    mark_resolve-clears now (select (is_resolve_late now) after.tickets) after
      (select-IsNamed (is_resolve_late now) after.tickets)

-- A second scan at the same time changes nothing.
pub sla_scan-twice : (now : ℕ) (db : SupportDb) → sla_scan now (sla_scan now db) ≡ sla_scan now db
sla_scan-twice now db = no_work now (sla_scan now db) (scan_ack now db) (scan_resolve now db)
