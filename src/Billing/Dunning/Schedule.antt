-- ===== src/Billing/Dunning/Schedule.antt =====
-- The schedule: days 3, 7, 10 and 30 after a case was opened.
use colab.Prelude.{ℕ, ◌+◌, ◌≤◌, true, false, ◌≡◌, refl, ◌⊎◌, inl, inr, length, List, [], ◌∷◌, arith}
use colab.Prelude.Time.{days}
use colab.Billing.Dunning.{
  DunningCase, DunningState, day0, day3, day7, day10_canceled, day30_grace_expired, recovered,
  is_terminal, reference_time, advance_case,
}

-- How long after the opening a case may be in a state.
abbrev pub days_due : DunningState → ℕ
days_due day0 = 0
days_due day3 = 3
days_due day7 = 7
days_due day10_canceled = 10
days_due day30_grace_expired = 30
days_due recovered = 0

-- The last attempt was made no earlier than the schedule says.
abbrev IsOnSchedule : DunningCase → Type 0
IsOnSchedule c = c.opened_at + days (days_due c.state) ≤ reference_time c

-- A tick keeps the schedule: no case is retried, canceled or expired before its day.
advance_case-IsOnSchedule :
    (now : ℕ) (c : DunningCase) → IsOnSchedule c → IsOnSchedule (advance_case now c).0
unfolding advance_case
advance_case-IsOnSchedule now c h = ground arith

-- A second tick at the same time changes nothing and takes no action.
advance_case_idem :
    (now : ℕ) (c : DunningCase)
    → advance_case now (advance_case now c).0 ≡ ((advance_case now c).0, [])
unfolding advance_case
advance_case_idem now c = ground arith

-- The states that are left to go through before the grace period is over.
abbrev pub remaining : DunningState → ℕ
remaining day0 = 4
remaining day3 = 3
remaining day7 = 2
remaining day10_canceled = 1
remaining _ = 0

abbrev pub run_ticks : List ℕ → DunningCase → DunningCase
run_ticks [] c = c
run_ticks (t ∷ ts) c = run_ticks ts (advance_case t c).0

-- Ticks that are at least twenty days apart, the longest delay.
abbrev pub Spaced : ℕ → List ℕ → Type 0
Spaced prev [] = Unit
Spaced prev (t ∷ ts) = (prev + days 20 ≤ t) × Spaced t ts

tick :
    (t : ℕ) (c : DunningCase)
    → is_terminal c.state ≡ false
    → reference_time c + days 20 ≤ t
    → (remaining (advance_case t c).0.state + 1 ≡ remaining c.state)
      × (reference_time (advance_case t c).0 ≡ t)
unfolding advance_case
tick t c h due = ground arith

expired_at : (c : DunningCase) → is_terminal c.state ≡ false → (remaining c.state ≡ 0) → ⊥
unfolding is_terminal
expired_at c h e = ground arith

last_state :
    (t : ℕ) (c : DunningCase)
    → is_terminal c.state ≡ false
    → reference_time c + days 20 ≤ t
    → (is_terminal (advance_case t c).0.state ≡ false)
      ⊎ ((advance_case t c).0.state ≡ day30_grace_expired)
unfolding advance_case
last_state t c h due = ground arith

expired_stays : (ts : List ℕ) (c : DunningCase) → is_terminal c.state ≡ true → run_ticks ts c ≡ c
unfolding advance_case
expired_stays [] c e = refl
expired_stays (t ∷ ts) c e = rw (e) (expired_stays ts c e)

-- An open case is over after as many ticks, twenty days apart, as it has states left.
pub run_ticks-expires :
    (ts : List ℕ) (c : DunningCase)
    → is_terminal c.state ≡ false
    → Spaced (reference_time c) ts
    → remaining c.state ≤ length ts
    → (run_ticks ts c).state ≡ day30_grace_expired
run_ticks-expires [] c h s n = absurd (expired_at c h (omega arith))
run_ticks-expires (t ∷ ts) c h s n = elim (last_state t c h s.0) [
  | inl still ↦
      let (fewer, at) = tick t c h s.0 in
      run_ticks-expires ts (advance_case t c).0 still (rw at s.1) (omega arith)
  | inr over ↦ rw (expired_stays ts (advance_case t c).0 (unfold is_terminal in rw over)) over
]
