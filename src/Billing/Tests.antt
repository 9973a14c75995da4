-- ===== src/Billing/Tests.antt =====
-- Runs of the billing model on small inputs.
use colab.Prelude.{ℕ, ◌+◌, false, none, some, List, [], ◌∷◌, ◌≡◌, refl, arith, if◌then◌else◌}
use colab.Prelude.Int.{pos, negsuc, ◌≤ℤ◌, ltb_ℤ, ◌+ℤ◌, neg}
use colab.Prelude.Text.{codes}
use colab.Prelude.Time.{days}
use colab.Billing.Credits.Rows.{CreditDb, CreditTransaction, consume, find_tx, find_key, insert_tx}
use colab.Billing.Credits.{sum_reserved, commit_reservation, reserve_credits, credit_purchase}
use colab.Billing.Credits.Requests.{
  Request, reserve_req, commit_req, purchase_req, run, serve, empty, reserve_credits_endpoint,
  commit_credits_endpoint, release_credits_endpoint, server_error, payment_required,
}
use colab.Billing.Credits.Sums.{balance_of, settled}
use colab.Billing.Credits.Balance.{balance-eq-settled}
use colab.Billing.Credits.Solvency.{available, available-nonneg}
use colab.Billing.Credits.Replay.{purchase_once, reserve_again}
use colab.Billing.Credits.Settling.{committed_once}
use colab.Billing.Dunning.{DunningCase, day0, day30_grace_expired, is_terminal}
use colab.Billing.Dunning.Schedule.{run_ticks, run_ticks-expires}
use colab.Billing.Dunning.OneOpen.{
  DunningOp, payment_failed, payment_succeeded, tick, apply_all, AtMostOneOpen,
  apply_all-AtMostOneOpen,
}
use colab.Billing.Subscriptions.{StripeSub}
use colab.Billing.Subscriptions.Rows.{Subscription, premium, active, from_stripe, stripe, year}
use colab.Billing.Subscriptions.Stale.{StripeEvent}
use colab.Billing.Refunds.{Ask, create_refund_request, admin_decide_refund, approve}
use colab.Billing.Refunds.Rows.{
  pending, RefundDb, RefundRequest, RefundCall, StripeAnswer, stripe_error, of_subscription,
  approved,
}
use colab.Billing.Refunds.Outcome.{late_annual_refund_in_full}

-- User 7 buys 50 credits, reserves 20 and 10 and has the first reservation committed.
abbrev requests : List (Request × ℕ)
requests =
    (purchase_req 7 (pos 50) "stripe" "pi_1" "evt_1" 100, 1)
    ∷ (reserve_req 7 (pos 20) "job" "a" (some "k1") 101, 2)
    ∷ (reserve_req 7 (pos 10) "job" "b" (some "k2") 102, 3)
    ∷ (commit_req 101, 4)
    ∷ []

after_requests : balance_of 7 (run requests empty).wallets ≡ pos 30
unfolding run serve ◌+ℤ◌ commit_reservation reserve_credits credit_purchase insert_tx sum_reserved
    neg
after_requests = refl

balance-eq-settled_example :
    balance_of 7 (run requests empty).wallets ≡ settled 7 (run requests empty).txs
balance-eq-settled_example = balance-eq-settled requests 7

available-nonneg_example : pos 0 ≤ℤ available 7 (run requests empty)
available-nonneg_example =
    available-nonneg requests 7 (omega arith, (omega arith, (omega arith, (tt, tt))))

purchase_once_example :
    let after = run requests (serve (purchase_req 9 (pos 5) "stripe" "pi_2" "evt_2" 200) 1 empty) in
    serve (purchase_req 9 (pos 6) "stripe" "pi_3" "evt_2" 201) 8 after ≡ after
purchase_once_example =
    purchase_once 9 9 (pos 5) (pos 6) "stripe" "pi_2" "pi_3" "evt_2" 200 201 1 8 requests empty refl

abbrev reserved_row : CreditTransaction
reserved_row = record {
  id = 101;
  user_id = 7;
  delta = negsuc 19;
  reason = colab.Billing.Credits.Rows.reserve;
  reference_kind = "job";
  reference_id = "a";
  idempotency_key = "k1";
  status = colab.Billing.Credits.Rows.reserved;
  committed_at = none;
}

abbrev one_reservation : CreditDb
one_reservation = record {
  wallets = record { user_id = 7; balance = pos 50; updated_at = 1 } ∷ [];
  txs = reserved_row ∷ [];
}

-- 30 of 50 credits are left, so that a retry of the reservation of 40 is answered with 402.
reserve_again_example :
    reserve_credits_endpoint 7 (pos 40) "job" "a" (some "k1") 102 5 one_reservation ≡ (
      (if ltb_ℤ (available 7 one_reservation) (pos 40)
          then payment_required (available 7 one_reservation) (pos 40)
          else server_error),
      one_reservation,
    )
reserve_again_example = reserve_again 7 (pos 40) "job" "a" (some "k1") 102 5 one_reservation refl

committed_once_example :
    let after = run [] (commit_credits_endpoint 101 5 one_reservation) in
    (commit_credits_endpoint 101 6 after ≡ after)
    × (release_credits_endpoint 101 consume 300 6 after ≡ after)
committed_once_example = committed_once 101 5 6 consume 300 [] one_reservation refl

abbrev new_case : DunningCase
new_case = record {
  id = 1;
  user_id = 7;
  subscription_id = 3;
  opened_at = 0;
  state = day0;
  last_attempt_at = some 0;
  last_attempt_result = some "payment_failed";
  recovered_at = none;
  closed_at = none;
}

run_ticks-expires_example :
    (run_ticks (days 20 ∷ days 40 ∷ days 60 ∷ days 80 ∷ []) new_case).state ≡ day30_grace_expired
unfolding is_terminal
run_ticks-expires_example =
    run_ticks-expires (days 20 ∷ days 40 ∷ days 60 ∷ days 80 ∷ []) new_case refl
      (omega arith, (omega arith, (omega arith, (omega arith, tt)))) (omega arith)

abbrev dunning_ops : List DunningOp
dunning_ops =
    payment_failed 7 3 1 0 0
    ∷ payment_failed 7 3 2 5 5
    ∷ tick (days 4)
    ∷ payment_succeeded 3 (days 5) (days 5)
    ∷ []

apply_all-AtMostOneOpen_example :
    (after : List DunningCase) × (apply_all dunning_ops [] ≡ some after) × AtMostOneOpen after
apply_all-AtMostOneOpen_example = apply_all-AtMostOneOpen dunning_ops [] (λ sub. omega arith)

abbrev yearly : Subscription
yearly = record {
  id = 3;
  user_id = 7;
  source = from_stripe;
  gateway = stripe;
  tier = premium;
  status = active;
  store_subscription_id = "sub_1";
  store_product_id = codes "prod_1";
  billing_period = year;
  current_period_start = 0;
  current_period_end = days 365;
  cancel_at_period_end = false;
  trial_end = none;
  started_at = 0;
  canceled_at = none;
  ended_at = none;
  updated_at = 1_000;
}

abbrev canceled_event : StripeSub
canceled_event = record {
  id = some "sub_1";
  status = some "canceled";
  current_period_start = some 0;
  current_period_end = some 0;
  trial_end = none;
  price_id = none;
  interval = none;
  cancel_at_period_end = none;
}

abbrev created_event : StripeSub
created_event = record canceled_event { status = some "active" }

abbrev event : StripeSub → ℕ → StripeEvent
event obj at = record {
  obj = obj;
  user = 7;
  tier = premium;
  event_ts = at;
  fresh = 4;
  now = at + 1;
  stamp = at + 1;
}

abbrev refund_db : RefundDb
refund_db = record {
  subscriptions = yearly ∷ [];
  invoices = record { user_id = 7; stripe_invoice_id = some "in_1"; created_at = 0 } ∷ [];
  refund_requests = [];
  calls = [];
}

abbrev ask : Ask
ask = record {
  user_id = 7;
  kind = of_subscription;
  subscription_id = some 3;
  transaction_id = none;
  reason_user = none;
}

-- A Stripe that refuses every refund.
abbrev refusing : RefundCall → StripeAnswer
refusing call = stripe_error "no such charge"

late_annual_refund_in_full_example :
    let waiting = create_refund_request refusing ask 50 (days 100) (days 100) refund_db in
    (rr : RefundRequest) × (after : RefundDb) × (call : RefundCall) × admin_decide_refund refusing
        50 60 approve none
        (days 101)
        waiting.1
      ≡ some (rr, after)
    × waiting.0.refund_amount_minor ≡ some 0
    × waiting.0.status ≡ pending
    × waiting.0.decided_at ≡ none
    × waiting.1.calls ≡ []
    × after.calls ≡ call ∷ []
    × call.invoice ≡ "in_1"
    × call.amount ≡ none
    × rr.status ≡ approved
late_annual_refund_in_full_example =
    late_annual_refund_in_full refusing ask 50 60 (days 100) (days 100) (days 101) refund_db refl
      refl refl (omega arith) refl
