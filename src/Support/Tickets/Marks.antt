-- ===== src/Support/Tickets/Marks.antt =====
-- Which tickets a scan marks, and what it leaves alone.
use colab.Prelude.{
  ℕ, ◌+◌, ◌*◌, ◌≤◌, ◌<◌, Bool, true, false, ◌||◌, Bool-cases, ◌≡◌, ◌≢◌, refl, sym, ◌∙◌, ap, subst,
  inl, inr, Option, none, some, List, [], ◌∷◌, ◌==◌, ==_refl, find-holds, find-update_where, ◌⊎◌,
  any, length, select, update_where, if◌then◌else◌, arith,
}
use colab.Prelude.Uuid.{Uuid}
use colab.Support.Tickets.Rows.{Ticket, resolved, closed, SupportDb}
use colab.Support.Tickets.{
  ack_marked, resolve_marked, is_ack_late, is_resolve_late, mark_ack, mark_resolve, sla_scan,
  find_ticket,
}
use colab.Support.Tickets.Scan.{sla_scan-twice}

-- Is the ticket's id among those of the rows?
abbrev named_in : List Ticket → Uuid → Bool
named_in ts id = any (λ s. id == s.id) ts

abbrev row_if : Bool → (Ticket → Ticket) → Ticket → Ticket
row_if b f t = if b then f t else t

same_id : (a b : Uuid) → a == b ≡ true → a ≡ b
same_id a b h = ground (arith, h)

flip : (a b : Uuid) → a == b ≡ true → b == a ≡ true
flip a b h = ground (arith, h)

other_id : (a b c : Uuid) → a == c ≡ true → b == c ≡ false → a == b ≡ false
other_id a b c h k = ground (arith, h, k)

-- One id, which stands in one row at most.
module _ (id : Uuid) where
  abbrev pub IsOne : List Ticket → Type 0
  IsOne ts = length (select (λ r. r.id == id) ts) ≤ 1

  none_named :
      (p : Ticket → Bool) (ts : List Ticket)
      → length (select (λ r. r.id == id) ts) ≤ 0
      → named_in (select p ts) id ≡ false
  none_named p [] h = refl
  none_named p (t ∷ ts) h = elim (Bool-cases (p t)) [
    | inl hit ↦ rw hit (ground (arith, h, none_named p ts))
    | inr miss ↦ rw miss (ground (arith, h, none_named p ts))
  ]

  -- The rows that pass the test have the id among theirs exactly where its own row passes.
  named-find :
      (p : Ticket → Bool) (ts : List Ticket) {t : Ticket}
      → IsOne ts
      → find_ticket id ts ≡ some t
      → named_in (select p ts) id ≡ p t
  named-find p [] one h = cc
  named-find p (x ∷ ts) {t} one h = elim (Bool-cases (x.id == id)) [
    | inl mine ↦
        let same : x ≡ t = ground (arith, h, mine) in
        let rest = none_named p ts (omega (arith, rw mine at one)) in
        subst (λ z. named_in (select p (x ∷ ts)) id ≡ p z) same
          (elim (Bool-cases (p x)) [
            | inl hit ↦ rw (hit, flip x.id id mine) refl
            | inr miss ↦ rw (miss, rest) refl
          ])
    | inr other ↦
        let rest = named-find p ts {t = t} (rw other at one) (rw other at h) in
        elim (Bool-cases (p x)) [
          | inl hit ↦ rw (hit, other_id id x.id id (==_refl id) other) rest
          | inr miss ↦ rw miss rest
        ]
  ]

  IsOne-update :
      (x : Uuid) (f : Ticket → Ticket) (ts : List Ticket)
      → ((r : Ticket) → (f r).id ≡ r.id)
      → IsOne ts
      → IsOne (update_where (λ r. r.id == x) f ts)
  IsOne-update x f ts keep one = rw (same_length ts) one
    where
      same_length :
          (rs : List Ticket)
          → length (select (λ r. r.id == id) (update_where (λ r. r.id == x) f rs))
            ≡ length (select (λ r. r.id == id) rs)
      same_length [] = refl
      same_length (r ∷ rs) = ground (arith, keep r, same_length rs)

  stepped :
      (f : Ticket → Ticket) (s : Ticket) (rows : List Ticket) {t : Ticket}
      → ((r : Ticket) → (f r).id ≡ r.id)
      → find_ticket id rows ≡ some t
      → find_ticket id (update_where (λ r. r.id == s.id) f rows) ≡ some (row_if (id == s.id) f t)
  stepped f s rows {t} keep h =
      subst
        (λ k.
          find_ticket id (update_where (λ r. r.id == s.id) f rows) ≡ some (row_if (k == s.id) f t))
        (same_id t.id id (find-holds (λ r. r.id == id) rows h))
        (find-update_where (λ r. r.id == id) (λ r. r.id == s.id) f rows {x = t}
          (λ r. rw (keep r) refl) h)

  -- A write that is made twice is made once.
  twice :
      (f : Ticket → Ticket) (a b : Bool) (t : Ticket)
      → f (f t) ≡ f t
      → row_if b f (row_if a f t) ≡ row_if (a || b) f t
  twice f true true t e = e
  twice f true false t e = refl
  twice f false true t e = refl
  twice f false false t e = refl

  -- Each loop writes the row of the id where that is among the rows it goes through.
  module _ (now : ℕ) where
    mark_ack-find :
        (ts : List Ticket) (db : SupportDb) {t : Ticket}
        → find_ticket id db.tickets ≡ some t
        → find_ticket id (mark_ack now ts db).tickets
          ≡ some (row_if (named_in ts id) (ack_marked now) t)
    mark_ack-find [] db h = h
    mark_ack-find (s ∷ ts) db {t} h =
        mark_ack-find ts _ {t = row_if (id == s.id) (ack_marked now) t}
          (stepped (ack_marked now) s db.tickets (λ r. refl) h)
        ∙ ap some (twice (ack_marked now) (id == s.id) (named_in ts id) t refl)

    mark_resolve-find :
        (ts : List Ticket) (db : SupportDb) {t : Ticket}
        → find_ticket id db.tickets ≡ some t
        → find_ticket id (mark_resolve now ts db).tickets
          ≡ some (row_if (named_in ts id) (resolve_marked now) t)
    mark_resolve-find [] db h = h
    mark_resolve-find (s ∷ ts) db {t} h =
        mark_resolve-find ts _ {t = row_if (id == s.id) (resolve_marked now) t}
          (stepped (resolve_marked now) s db.tickets (λ r. refl) h)
        ∙ ap some (twice (resolve_marked now) (id == s.id) (named_in ts id) t refl)

    IsOne-mark_ack :
        (ts : List Ticket) (db : SupportDb) → IsOne db.tickets → IsOne (mark_ack now ts db).tickets
    IsOne-mark_ack [] db one = one
    IsOne-mark_ack (s ∷ ts) db one =
        IsOne-mark_ack ts _ (IsOne-update s.id (ack_marked now) db.tickets (λ r. refl) one)

    scanned-find :
        (db : SupportDb) {t : Ticket}
        → IsOne db.tickets
        → find_ticket id db.tickets ≡ some t
        → let first = row_if (is_ack_late now t) (ack_marked now) t in
          find_ticket id (sla_scan now db).tickets
          ≡ some (row_if (is_resolve_late now first) (resolve_marked now) first)
    unfolding sla_scan
    scanned-find db {t} one h =
        let late = select (is_ack_late now) db.tickets in
        let after : SupportDb = mark_ack now late db in
        let first = row_if (is_ack_late now t) (ack_marked now) t in
        let there : find_ticket id after.tickets ≡ some first =
          mark_ack-find late db h
          ∙ ap (λ b. some (row_if b (ack_marked now) t))
              (named-find (is_ack_late now) db.tickets one h) in
        mark_resolve-find (select (is_resolve_late now) after.tickets) after there
        ∙ ap (λ b. some (row_if b (resolve_marked now) first))
            (named-find (is_resolve_late now) after.tickets (IsOne-mark_ack late db one) there)

-- The due date of an answer was missed: the ticket was never answered and is neither resolved, closed nor marked,
-- and its due date, put off by its pauses, is past.
abbrev pub AckMissed : ℕ → Ticket → Type 0
AckMissed now t =
    (t.first_response_at ≡ none)
    × (t.sla_ack_breached_at ≡ none)
    × (t.status ≢ resolved)
    × (t.status ≢ closed)
    × (t.sla_ack_due + t.sla_paused_seconds * 1_000_000 < now)

-- The same for the due date of the solution.
abbrev pub ResolveMissed : ℕ → Ticket → Type 0
ResolveMissed now t =
    (t.resolved_at ≡ none)
    × (t.sla_resolve_breached_at ≡ none)
    × (t.status ≢ resolved)
    × (t.status ≢ closed)
    × (t.sla_resolve_due + t.sla_paused_seconds * 1_000_000 < now)

-- A mark is set to `now` where the date was missed, and else is as it was.
abbrev pub IsStamped : Type 0 → ℕ → Option ℕ → Option ℕ → Type 0
IsStamped P now before after = (P × (after ≡ some now)) ⊎ ((¬ P) × (after ≡ before))

late-AckMissed : (now : ℕ) (t : Ticket) → is_ack_late now t ≡ true → AckMissed now t
late-AckMissed now t h = ground (arith, h)

AckMissed-late : (now : ℕ) (t : Ticket) → AckMissed now t → is_ack_late now t ≡ true
AckMissed-late now t (a, b, c, d, e) = ground (arith, a, b, c, d, e)

late-ResolveMissed : (now : ℕ) (t : Ticket) → is_resolve_late now t ≡ true → ResolveMissed now t
late-ResolveMissed now t h = ground (arith, h)

ResolveMissed-late : (now : ℕ) (t : Ticket) → ResolveMissed now t → is_resolve_late now t ≡ true
ResolveMissed-late now t (a, b, c, d, e) = ground (arith, a, b, c, d, e)

clash : {b : Bool} → b ≡ true → b ≡ false → ⊥
clash h e = cc

stamped :
    {P : Type 0} (now : ℕ) (before : Option ℕ) (b : Bool)
    → (b ≡ true → P)
    → (P → b ≡ true)
    → IsStamped P now before (if b then some now else before)
stamped now before true there back = inl (there refl, refl)
stamped now before false there back = inr ((λ p. clash (back p) refl), refl)

-- Each mark is set where its date was missed; the status, the first answer and the solution stay.
abbrev pub IsScanned : ℕ → Ticket → Ticket → Type 0
IsScanned now t t' =
    IsStamped (AckMissed now t) now t.sla_ack_breached_at t'.sla_ack_breached_at
    × IsStamped (ResolveMissed now t) now t.sla_resolve_breached_at t'.sla_resolve_breached_at
    × (t'.status ≡ t.status)
    × (t'.first_response_at ≡ t.first_response_at)
    × (t'.resolved_at ≡ t.resolved_at)

abbrev written : ℕ → Bool → Bool → Ticket → Ticket
written now a r t = row_if r (resolve_marked now) (row_if a (ack_marked now) t)

late_unmoved :
    (now : ℕ) (a : Bool) (t : Ticket)
    → is_resolve_late now (row_if a (ack_marked now) t) ≡ is_resolve_late now t
late_unmoved now true t = refl
late_unmoved now false t = refl

written-columns :
    (now : ℕ) (a r : Bool) (t : Ticket)
    → ((written now a r t).sla_ack_breached_at ≡ (if a then some now else t.sla_ack_breached_at))
      × ((written now a r t).sla_resolve_breached_at
          ≡ (if r then some now else t.sla_resolve_breached_at))
      × ((written now a r t).status ≡ t.status)
      × ((written now a r t).first_response_at ≡ t.first_response_at)
      × ((written now a r t).resolved_at ≡ t.resolved_at)
written-columns now true true t = (refl, refl, refl, refl, refl)
written-columns now true false t = (refl, refl, refl, refl, refl)
written-columns now false true t = (refl, refl, refl, refl, refl)
written-columns now false false t = (refl, refl, refl, refl, refl)

written-IsScanned :
    (now : ℕ) (t : Ticket)
    → IsScanned now t (written now (is_ack_late now t) (is_resolve_late now t) t)
written-IsScanned now t =
    let (ack, resolve, status, first, solved) =
      written-columns now (is_ack_late now t) (is_resolve_late now t) t in
    (
      subst (IsStamped (AckMissed now t) now t.sla_ack_breached_at) (sym ack) (
          stamped now t.sla_ack_breached_at (is_ack_late now t) (late-AckMissed now t)
            (AckMissed-late now t)),
      subst (IsStamped (ResolveMissed now t) now t.sla_resolve_breached_at) (sym resolve) (
          stamped now t.sla_resolve_breached_at (is_resolve_late now t) (late-ResolveMissed now t)
            (ResolveMissed-late now t)),
      status,
      first,
      solved,
    )

-- A scan sets the mark of a due date to its time exactly where the date was missed, which is where the ticket has no
-- answer (or no solution), is neither resolved, closed nor marked yet, and the date, put off by the pauses, is past.
-- The status, the first answer and the solution stay, and a second scan at the same time changes nothing. The id
-- stands in one row at most.
pub sla_scan_marks :
    (now : ℕ) (db : SupportDb) (id : Uuid) {t : Ticket}
    → IsOne id db.tickets
    → find_ticket id db.tickets ≡ some t
    → (t' : Ticket) × (find_ticket id (sla_scan now db).tickets ≡ some t')
      × IsScanned now t t'
      × (sla_scan now (sla_scan now db) ≡ sla_scan now db)
sla_scan_marks now db id {t} one found = (
  written now (is_ack_late now t) (is_resolve_late now t) t,
  scanned-find id now db one found
      ∙ ap
          (λ r.
            some (row_if r (resolve_marked now) (row_if (is_ack_late now t) (ack_marked now) t)))
          (late_unmoved now (is_ack_late now t) t),
  written-IsScanned now t,
  sla_scan-twice now db,
)
