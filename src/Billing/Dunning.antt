-- ===== src/Billing/Dunning.antt =====
-- services/billing-svc/app/services/dunning.py: the dunning cases and their state machine.
pub mod Schedule
pub mod OneOpen
use colab.Prelude.{
  ℕ, ◌+◌, String, Bool, true, false, ◌&&◌, not, Option, none, some, List, [], ◌∷◌, ◌==◌, ltb,
  Scalar, no_row, one_row, multiple_rows, scalar_one_or_none, select, update_where, if◌then◌else◌,
}
use colab.Prelude.Time.{days}
use colab.Prelude.Uuid.{Uuid}

pub data DunningState : Type 0 where
  day0 day3 day7 day10_canceled day30_grace_expired recovered : DunningState

pub record DunningCase : Type 0 where
  pub id : Uuid
  pub user_id : Uuid
  pub subscription_id : Uuid
  pub opened_at : ℕ
  pub state : DunningState
  pub last_attempt_at : Option ℕ
  pub last_attempt_result : Option String
  pub recovered_at : Option ℕ
  pub closed_at : Option ℕ

-- `TERMINAL_STATES`
unfoldable pub is_terminal : DunningState → Bool
is_terminal day30_grace_expired = true
is_terminal recovered = true
is_terminal _ = false

-- `STATE_DELAYS.get(case.state)`
unfoldable pub state_delay : DunningState → Option ℕ
state_delay day0 = some (days 3)
state_delay day3 = some (days 4)
state_delay day7 = some (days 3)
state_delay day10_canceled = some (days 20)
state_delay _ = none

pub data ActionKind : Type 0 where
  retry_charge cancel_subscription expire_grace : ActionKind

pub record Action : Type 0 where
  pub case_id : Uuid
  pub user_id : Uuid
  pub subscription_id : Uuid
  pub old_state : DunningState
  pub new_state : DunningState
  pub action : ActionKind

-- The open cases of a subscription.
abbrev pub is_open_for : Uuid → DunningCase → Bool
is_open_for sub c = c.subscription_id == sub && not (is_terminal c.state)

-- The case and the table, or `none` where the query raises MultipleResultsFound. The two times
-- are the two calls of `datetime.now`.
abbrev opened :
    Uuid
    → Uuid
    → Uuid
    → ℕ
    → ℕ
    → List DunningCase
    → Scalar DunningCase
    → Option (DunningCase × List DunningCase)
opened user sub fresh now attempt cases multiple_rows = none
opened user sub fresh now attempt cases (one_row c) = some (c, cases)
opened user sub fresh now attempt cases no_row =
    let c : DunningCase = record {
      id = fresh;
      user_id = user;
      subscription_id = sub;
      opened_at = now;
      state = day0;
      last_attempt_at = some attempt;
      last_attempt_result = some "payment_failed";
      recovered_at = none;
      closed_at = none;
    } in
    some (c, c ∷ cases)

unfoldable pub open_dunning_case :
    Uuid → Uuid → Uuid → ℕ → ℕ → List DunningCase → Option (DunningCase × List DunningCase)
unfolding is_terminal
open_dunning_case user sub fresh now attempt cases =
    opened user sub fresh now attempt cases (scalar_one_or_none (select (is_open_for sub) cases))

abbrev marked :
    Uuid
    → ℕ
    → ℕ
    → List DunningCase
    → Scalar DunningCase
    → Option (Option DunningCase × List DunningCase)
marked sub now closed cases multiple_rows = none
marked sub now closed cases no_row = some (none, cases)
marked sub now closed cases (one_row c) =
    let mark = λ (d : DunningCase). record d {
      state = recovered;
      recovered_at = some now;
      closed_at = some closed;
    } in
    some (some (mark c), update_where (λ d. d.id == c.id) mark cases)

-- The flush writes the row that the query found, by its primary key.
unfoldable pub mark_recovered :
    Uuid → ℕ → ℕ → List DunningCase → Option (Option DunningCase × List DunningCase)
unfolding is_terminal
mark_recovered sub now closed cases =
    marked sub now closed cases (scalar_one_or_none (select (is_open_for sub) cases))

-- The `if`/`elif` ladder of `advance_dunning_cases`.
unfoldable pub next_state : DunningState → Option (DunningState × ActionKind)
next_state day0 = some (day3, retry_charge)
next_state day3 = some (day7, retry_charge)
next_state day7 = some (day10_canceled, cancel_subscription)
next_state day10_canceled = some (day30_grace_expired, expire_grace)
next_state _ = none

-- `case.last_attempt_at or case.opened_at`
abbrev pub reference_time : DunningCase → ℕ
reference_time c = elim c.last_attempt_at [ none ↦ c.opened_at | some t ↦ t ]

abbrev step_case : ℕ → DunningCase → Option (DunningState × ActionKind) → DunningCase × List Action
step_case now c none = (c, [])
step_case now c (some (s, a)) = (
  record c { state = s; last_attempt_at = some now },
  record {
    case_id = c.id;
    user_id = c.user_id;
    subscription_id = c.subscription_id;
    old_state = c.state;
    new_state = s;
    action = a;
  }
      ∷ [],
)

abbrev when_due : ℕ → DunningCase → Option ℕ → DunningCase × List Action
when_due now c none = (c, [])
when_due now c (some delay) =
    if ltb now (reference_time c + delay) then (c, []) else step_case now c (next_state c.state)

-- The body of the loop, for a row that the query selects.
unfoldable pub advance_case : ℕ → DunningCase → DunningCase × List Action
unfolding is_terminal state_delay next_state
advance_case now c = if is_terminal c.state then (c, []) else when_due now c (state_delay c.state)

unfoldable pub advance_dunning_cases : ℕ → List DunningCase → List DunningCase × List Action
advance_dunning_cases now [] = ([], [])
advance_dunning_cases now (c ∷ cases) =
    let rest = advance_dunning_cases now cases in
    let (c', actions) = advance_case now c in
    (c' ∷ rest.0, elim actions [ [] ↦ rest.1 | a ∷ _ ↦ a ∷ rest.1 ])
