-- ===== src/Collab/Status.antt =====
-- services/collab-svc/app/domain/state_machine.py.
use colab.Prelude.{Bool, true, false}

-- `CollabStatusEnum`
pub data CollabStatus : Type 0 where
  still_deciding in_progress completed didnt_work_out : CollabStatus

-- `new_status in TRANSITION_MAP[current_status]`; `validate_transition` raises where it is false.
unfoldable pub is_allowed : CollabStatus → CollabStatus → Bool
is_allowed still_deciding in_progress = true
is_allowed still_deciding completed = true
is_allowed still_deciding didnt_work_out = true
is_allowed in_progress still_deciding = true
is_allowed in_progress completed = true
is_allowed in_progress didnt_work_out = true
is_allowed _ _ = false

-- `TERMINAL_STATES`
unfoldable pub is_terminal : CollabStatus → Bool
is_terminal completed = true
is_terminal didnt_work_out = true
is_terminal _ = false
