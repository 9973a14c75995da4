-- ===== src/Billing/Refunds/Rows.antt =====
-- The tables that refunds read and write, of services/billing-svc/app/models/billing.py, the call of
-- Stripe, and what app/services/refunds.py looks up.
use colab.Prelude.{
  ℕ, ◌+◌, ◌-◌, ◌/◌, ◌==◌, String, Bool, Option, none, some, List, [], ◌∷◌, str_eq, leb, find,
  if◌then◌else◌, ◌>>=◌,
}
use colab.Prelude.Uuid.{Uuid}
use colab.Prelude.Text.{Text}
use colab.Prelude.Time.{days, microseconds_per_day}
use colab.Billing.Subscriptions.Rows.{Subscription}

pub data RefundStatus : Type 0 where
  auto_approved pending approved denied routed_to_apple routed_to_google : RefundStatus

pub data RefundKind : Type 0 where
  of_subscription of_credit_purchase : RefundKind

-- The texts of `reason_internal`.
pub data InternalReason : Type 0 where
  outside_window : InternalReason
  prorated : ℕ → InternalReason
  no_stripe_invoice : InternalReason
  refund_failed : String → InternalReason
  admin_note : String → InternalReason

pub record Invoice : Type 0 where
  pub user_id : Uuid
  pub stripe_invoice_id : Option String
  pub created_at : ℕ

pub record RefundRequest : Type 0 where
  pub id : Uuid
  pub user_id : Uuid
  pub kind : RefundKind
  pub subscription_id : Option Uuid
  pub transaction_id : Option Uuid
  pub requested_at : ℕ
  pub within_14d : Bool
  pub reason_user : Option String
  pub reason_internal : Option InternalReason
  pub status : RefundStatus
  pub decided_at : Option ℕ
  pub decided_by : Option Uuid
  pub refund_amount_minor : Option ℕ
  pub refund_currency : Option Text
  pub stripe_refund_id : Option String

-- The keyword arguments of `stripe.Refund.create`: with no amount the whole invoice is refunded.
pub record RefundCall : Type 0 where
  pub invoice : String
  pub amount : Option ℕ
  pub idempotency_key : String

pub data StripeAnswer : Type 0 where
  refunded : String → ℕ → Text → StripeAnswer
  stripe_error : String → StripeAnswer

-- The tables that are read and written, and the calls sent to Stripe, the last one first.
pub record RefundDb : Type 0 where
  pub subscriptions : List Subscription
  pub invoices : List Invoice
  pub refund_requests : List RefundRequest
  pub calls : List RefundCall

abbrev pub find_subscription : Option Uuid → List Subscription → Option Subscription
find_subscription none subs = none
find_subscription (some i) subs = find (λ s. s.id == i) subs

abbrev newer : Invoice → Option Invoice → Invoice
newer i none = i
newer i (some j) = if leb j.created_at i.created_at then i else j

-- `select(Invoice).where(user_id == …).order_by(created_at.desc())`, its first row
abbrev latest_invoice : Uuid → List Invoice → Option Invoice
latest_invoice u [] = none
latest_invoice u (i ∷ is) =
    let rest = latest_invoice u is in if i.user_id == u then some (newer i rest) else rest

-- The Stripe id of the user's latest invoice, where it has one that is not empty.
abbrev truthy : Option String → Option String
truthy none = none
truthy (some s) = if str_eq s "" then none else some s

abbrev pub invoice_to_refund : Uuid → List Invoice → Option String
invoice_to_refund u invoices = latest_invoice u invoices >>= λ i. truthy i.stripe_invoice_id

abbrev pub within_14_days : Subscription → ℕ → Bool
within_14_days sub now = leb now (sub.started_at + days 14)

-- The days of a period are 0 here where the source's are negative, which it treats alike.
abbrev pub compute_proration : Subscription → ℕ → ℕ
compute_proration sub now =
    let total_days = (sub.current_period_end - sub.current_period_start) / microseconds_per_day in
    let remaining_days = (sub.current_period_end - now) / microseconds_per_day in
    if total_days == 0 then 0 else if remaining_days == 0 then 0 else 0
