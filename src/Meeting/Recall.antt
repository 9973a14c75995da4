-- ===== src/Meeting/Recall.antt =====
-- services/meeting-svc/app/services/recall_client.py: the requests that a new client sends to create a bot. Its
-- circuit breaker opens after three failed calls, and the bot task makes one call with each client.
use colab.Prelude.{ℕ, zero, suc, ◌≤◌, String, Option, none, some, List, [], ◌∷◌, length, arith}

-- What comes back for a request: a bot's id, a status that is not retried or an answer that names no bot, a status
-- of `_RETRY_STATUSES`, or nothing.
pub data Response : Type 0 where
  answered : String → Response
  refused retryable no_answer : Response

-- A POST to `/bot/`: what comes back for it, and the bot that it made at Recall.ai, which no answer need report.
pub record Attempt : Type 0 where
  pub response : Response
  pub made : Option String

-- After an attempt: the end of the call, or what the attempts that are left bring.
abbrev after_attempt :
    Attempt → Response → List Attempt × Option String → List Attempt × Option String
after_attempt a (answered bot) rest = (a ∷ [], some bot)
after_attempt a refused rest = (a ∷ [], none)
after_attempt a retryable rest = (a ∷ rest.0, rest.1)
after_attempt a no_answer rest = (a ∷ rest.0, rest.1)

-- `_request` with the attempts that are left: the requests that were sent, and the bot's id or the exception.
abbrev request : ℕ → (ℕ → Attempt) → List Attempt × Option String
request zero recall = ([], none)
request (suc left) recall =
    let rest = request left (λ i. recall (suc i)) in
    after_attempt (recall 0) (recall 0).response rest

-- `_MAX_RETRIES`
abbrev max_retries : ℕ
max_retries = 3

unfoldable pub create_bot : (ℕ → Attempt) → List Attempt × Option String
create_bot recall = request max_retries recall

length-request : (left : ℕ) (recall : ℕ → Attempt) → length (request left recall).0 ≤ left
length-request zero recall = omega arith
length-request (suc left) recall =
    ends (recall 0).response (length-request left (λ i. recall (suc i)))
  where
    ends :
        (r : Response)
        → length (request left (λ i. recall (suc i))).0 ≤ left
        → length (after_attempt (recall 0) r (request left (λ i. recall (suc i)))).0 ≤ suc left
    ends (answered bot) h = omega arith
    ends refused h = omega arith
    ends retryable h = omega (arith, h)
    ends no_answer h = omega (arith, h)

pub length-create_bot : (recall : ℕ → Attempt) → length (create_bot recall).0 ≤ 3
unfolding create_bot
length-create_bot recall = length-request 3 recall

pub create_bot_sends : (recall : ℕ → Attempt) → 1 ≤ length (create_bot recall).0
unfolding create_bot
create_bot_sends recall = first (recall 0).response
  where
    first :
        (r : Response) → 1 ≤ length (after_attempt (recall 0) r (request 2 (λ i. recall (suc i)))).0
    first (answered bot) = omega arith
    first refused = omega arith
    first retryable = omega arith
    first no_answer = omega arith
