-- ===== src/Billing/Refunds.antt =====
-- services/billing-svc/app/services/refunds.py: a user's refund request, what is decided at once, and
-- the decision of an admin. Stripe's refund call is a parameter; the calls made are kept in a log.
pub mod Rows
pub mod Outcome
use colab.Prelude.{
  ℕ, ◌+◌, ◌-◌, ◌/◌, ◌==◌, String, Bool, true, false, Option, none, some, List, [], ◌∷◌, str_eq, leb,
  ◌++◌, find, update_where, if◌then◌else◌, ◌>>=◌,
}
use Prim.Native.String.{◌++◌ as str_append}
use colab.Prelude.Uuid.{Uuid, uuid_str}
use colab.Prelude.Text.{Text, codes, upper}
use colab.Prelude.Time.{days, microseconds_per_day}
use colab.Billing.Subscriptions.Rows.{
  Subscription, Gateway, stripe, apple, google, paddle_in, BillingPeriod, month, year,
}
use colab.Billing.Refunds.Rows.{
  InternalReason, Invoice, RefundCall, RefundDb, RefundKind, RefundRequest, RefundStatus,
  StripeAnswer, admin_note, approved, auto_approved, compute_proration, denied, find_subscription,
  invoice_to_refund, no_stripe_invoice, of_credit_purchase, of_subscription, outside_window,
  pending, prorated, refund_failed, refunded, routed_to_apple, routed_to_google, stripe_error,
  within_14_days,
}

-- What a step leaves: the request and the calls of Stripe that it made.
pub record Decided : Type 0 where
  pub request : RefundRequest
  pub sent : List RefundCall

abbrev unsent : RefundRequest → Decided
unsent rr = record { request = rr; sent = [] }

abbrev pub auto_approved_by : ℕ → StripeAnswer → RefundRequest → RefundRequest
auto_approved_by later (refunded i amount currency) rr = record rr {
  status = auto_approved;
  stripe_refund_id = some i;
  refund_amount_minor = some amount;
  refund_currency = some (upper currency);
  decided_at = some later;
}
auto_approved_by later (stripe_error e) rr = record rr {
  status = pending;
  reason_internal = some (refund_failed e);
}

-- `refund:{sub.id}:{rr.user_id}`
abbrev pub auto_call : Subscription → RefundRequest → String → RefundCall
auto_call sub rr invoice = record {
  invoice = invoice;
  amount = none;
  idempotency_key =
      str_append "refund:" (str_append (uuid_str sub.id) (str_append ":" (uuid_str rr.user_id)));
}

abbrev refund_invoice :
    (RefundCall → StripeAnswer) → ℕ → Option String → RefundRequest → Subscription → Decided
refund_invoice refund_create later none rr sub =
    unsent (record rr { status = pending; reason_internal = some no_stripe_invoice })
refund_invoice refund_create later (some i) rr sub = record {
  request = auto_approved_by later (refund_create (auto_call sub rr i)) rr;
  sent = auto_call sub rr i ∷ [];
}

abbrev pub auto_approve_stripe_refund :
    (RefundCall → StripeAnswer) → ℕ → List Invoice → RefundRequest → Subscription → Decided
auto_approve_stripe_refund refund_create later invoices rr sub =
    refund_invoice refund_create later (invoice_to_refund rr.user_id invoices) rr sub

-- A web subscription outside the window of 14 days.
abbrev pub late_web : BillingPeriod → ℕ → Subscription → RefundRequest → RefundRequest
late_web month now sub rr = record rr {
  status = denied;
  reason_internal = some outside_window;
  decided_at = some now;
}
late_web year now sub rr = record rr {
  refund_amount_minor = some (compute_proration sub now);
  refund_currency = some (codes "USD");
  reason_internal = some (prorated (compute_proration sub now));
}

abbrev pub web :
    (RefundCall → StripeAnswer) → ℕ → ℕ → List Invoice → Subscription → RefundRequest → Decided
web refund_create now later invoices sub rr =
    if within_14_days sub now
    then auto_approve_stripe_refund refund_create later invoices rr sub
    else unsent (late_web sub.billing_period now sub rr)

abbrev pub by_gateway :
    (RefundCall → StripeAnswer)
    → Gateway
    → ℕ
    → ℕ
    → List Invoice
    → Subscription
    → RefundRequest
    → Decided
by_gateway refund_create apple now later invoices sub rr =
    unsent (record rr { status = routed_to_apple })
by_gateway refund_create google now later invoices sub rr =
    unsent (record rr { status = routed_to_google })
by_gateway refund_create stripe now later invoices sub rr =
    web refund_create now later invoices sub rr
by_gateway refund_create paddle_in now later invoices sub rr =
    web refund_create now later invoices sub rr

-- What the caller asks for.
pub record Ask : Type 0 where
  pub user_id : Uuid
  pub kind : RefundKind
  pub subscription_id : Option Uuid
  pub transaction_id : Option Uuid
  pub reason_user : Option String

abbrev in_window : Option Subscription → ℕ → Bool
in_window none now = false
in_window (some sub) now = within_14_days sub now

abbrev pub new_request : Ask → Uuid → ℕ → Option Subscription → RefundRequest
new_request ask fresh now sub = record {
  id = fresh;
  user_id = ask.user_id;
  kind = ask.kind;
  subscription_id = ask.subscription_id;
  transaction_id = ask.transaction_id;
  requested_at = now;
  within_14d = in_window sub now;
  reason_user = ask.reason_user;
  reason_internal = none;
  status = pending;
  decided_at = none;
  decided_by = none;
  refund_amount_minor = none;
  refund_currency = none;
  stripe_refund_id = none;
}

abbrev pub decide_new :
    (RefundCall → StripeAnswer)
    → ℕ
    → ℕ
    → List Invoice
    → Option Subscription
    → RefundRequest
    → Decided
decide_new refund_create now later invoices none rr = unsent rr
decide_new refund_create now later invoices (some sub) rr =
    by_gateway refund_create sub.gateway now later invoices sub rr

-- `fresh` is the new row's id, `now` the first and `later` the second reading of the clock.
unfoldable pub create_refund_request :
    (RefundCall → StripeAnswer) → Ask → Uuid → ℕ → ℕ → RefundDb → RefundRequest × RefundDb
create_refund_request refund_create ask fresh now later db =
    let sub = find_subscription ask.subscription_id db.subscriptions in
    let decided =
      decide_new refund_create now later db.invoices sub (new_request ask fresh now sub) in
    (
      decided.request,
      record db {
        refund_requests = decided.request ∷ db.refund_requests;
        calls = decided.sent ++ db.calls;
      },
    )

pub data Decision : Type 0 where
  approve deny : Decision

-- `rr.refund_amount_minor or None`
abbrev nonzero : Option ℕ → Option ℕ
nonzero none = none
nonzero (some n) = if n == 0 then none else some n

abbrev pub admin_call : Uuid → RefundRequest → String → RefundCall
admin_call admin rr invoice = record {
  invoice = invoice;
  amount = nonzero rr.refund_amount_minor;
  idempotency_key =
      str_append "admin-refund:" (str_append (uuid_str rr.id) (str_append ":" (uuid_str admin)));
}

-- An error of Stripe is logged only.
abbrev pub refunded_by_admin : StripeAnswer → RefundRequest → RefundRequest
refunded_by_admin (refunded i amount currency) rr = record rr {
  stripe_refund_id = some i;
  refund_amount_minor = some amount;
  refund_currency = some (upper currency);
}
refunded_by_admin (stripe_error e) rr = rr

abbrev is_stripe : Gateway → Bool
is_stripe stripe = true
is_stripe _ = false

-- The invoice that an approval refunds, where the request is for a Stripe subscription.
abbrev pub invoice_of : RefundDb → RefundRequest → Option String
invoice_of db rr = find_subscription rr.subscription_id db.subscriptions >>= λ sub.
    if is_stripe sub.gateway then invoice_to_refund rr.user_id db.invoices else none

abbrev pub refund_now :
    (RefundCall → StripeAnswer) → Decision → Uuid → Option String → RefundRequest → Decided
refund_now refund_create deny admin invoice rr = unsent rr
refund_now refund_create approve admin none rr = unsent rr
refund_now refund_create approve admin (some i) rr = record {
  request = refunded_by_admin (refund_create (admin_call admin rr i)) rr;
  sent = admin_call admin rr i ∷ [];
}

abbrev status_of : Decision → RefundStatus
status_of approve = approved
status_of deny = denied

abbrev with_note : Option String → Option InternalReason → Option InternalReason
with_note none r = r
with_note (some n) r = if str_eq n "" then r else some (admin_note n)

abbrev settle : Decision → Uuid → Option String → ℕ → RefundRequest → RefundRequest
settle decision admin internal_note now rr = record rr {
  status = status_of decision;
  decided_at = some now;
  decided_by = some admin;
  reason_internal = with_note internal_note rr.reason_internal;
}

-- A missing row raises NoResultFound.
unfoldable pub admin_decide_refund :
    (RefundCall → StripeAnswer)
    → Uuid
    → Uuid
    → Decision
    → Option String
    → ℕ
    → RefundDb
    → Option (RefundRequest × RefundDb)
admin_decide_refund refund_create id admin decision internal_note now db =
    find (λ r. r.id == id) db.refund_requests >>= λ rr.
    let decided = refund_now refund_create decision admin (invoice_of db rr) rr in
    let new = settle decision admin internal_note now decided.request in
    some (
      new,
      record db {
        refund_requests = update_where (λ r. r.id == id) (λ r. new) db.refund_requests;
        calls = decided.sent ++ db.calls;
      },
    )
