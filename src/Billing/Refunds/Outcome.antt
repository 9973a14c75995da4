-- ===== src/Billing/Refunds/Outcome.antt =====
-- What becomes of a refund request.
use colab.Prelude.{
  ℕ, ◌≤◌, ◌<◌, ◌+◌, ==_refl, String, Bool, true, false, Option, none, some, [], ◌∷◌, ◌≡◌, refl, ◌⊎◌,
  arith, leb,
}
use colab.Prelude.Uuid.{Uuid}
use colab.Prelude.Time.{days}
use colab.Billing.Subscriptions.Rows.{Subscription, Gateway, stripe, paddle_in, year}
use colab.Billing.Refunds.{Decided, Ask, create_refund_request, approve, admin_decide_refund}
use colab.Billing.Refunds.Rows.{
  RefundStatus, auto_approved, pending, approved, compute_proration, RefundRequest, RefundCall,
  StripeAnswer, refunded, stripe_error, RefundDb, find_subscription, invoice_to_refund,
}

abbrev is_auto_approved : RefundStatus → Bool
is_auto_approved auto_approved = true
is_auto_approved _ = false

abbrev is_refunded : StripeAnswer → Bool
is_refunded (refunded i amount currency) = true
is_refunded (stripe_error e) = false

abbrev is_web : Gateway → Bool
is_web stripe = true
is_web paddle_in = true
is_web _ = false

-- A decision on a new request: no call and no approval, or one call of Stripe for a whole invoice
-- of a web subscription inside its window, with approval exactly when Stripe refunds.
abbrev pub Judged : (RefundCall → StripeAnswer) → ℕ → Option Subscription → Decided → Type 0
Judged refund_create now sub d =
    (d.sent ≡ [] × is_auto_approved d.request.status ≡ false)
    ⊎ ((s : Subscription) × (call : RefundCall) × sub ≡ some s
        × is_web s.gateway ≡ true
        × now ≤ s.started_at + days 14
        × d.sent ≡ call ∷ []
        × call.amount ≡ none
        × is_auto_approved d.request.status ≡ is_refunded (refund_create call))

proration_zero : (sub : Subscription) (now : ℕ) → compute_proration sub now ≡ 0
proration_zero sub now = ground arith

-- A yearly Stripe subscription, asked for after its 14 days: the request is pending and undecided with a prorated
-- amount of 0 and no call of Stripe was made, and an admin who approves it has Stripe refund the whole invoice, with no amount named;
-- the request is then approved, also where Stripe answers with an error.
pub late_annual_refund_in_full :
    (refund_create : RefundCall → StripeAnswer) (ask : Ask) (fresh admin : Uuid)
    (now later decided : ℕ) (db : RefundDb) {sub : Subscription} {invoice : String}
    → find_subscription ask.subscription_id db.subscriptions ≡ some sub
    → sub.gateway ≡ stripe
    → sub.billing_period ≡ year
    → sub.started_at + days 14 < now
    → invoice_to_refund ask.user_id db.invoices ≡ some invoice
    → let waiting = create_refund_request refund_create ask fresh now later db in
      (rr : RefundRequest) × (after : RefundDb) × (call : RefundCall) × admin_decide_refund
          refund_create fresh admin approve none decided waiting.1
        ≡ some (rr, after)
      × waiting.0.refund_amount_minor ≡ some 0
      × waiting.0.status ≡ pending
      × waiting.0.decided_at ≡ none
      × waiting.1.calls ≡ db.calls
      × after.calls ≡ call ∷ db.calls
      × call.invoice ≡ invoice
      × call.amount ≡ none
      × rr.status ≡ approved
unfolding create_refund_request admin_decide_refund
late_annual_refund_in_full refund_create ask fresh admin now later decided db {sub} {invoice} f g y
      l i =
    rw (f, g, y, outside, ==_refl fresh, f, g, i, proration_zero sub now)
      (_, _, _, refl, refl, refl, refl, refl, refl, refl, refl, refl)
  where
    outside : leb now (sub.started_at + days 14) ≡ false
    outside = ground arith
