-- ===== src/Billing/Subscriptions/Rows.antt =====
-- The subscription rows of services/billing-svc/app/models/billing.py, and the maps of
-- app/services/subscriptions.py from statuses and products.
use colab.Prelude.{ℕ, String, Bool, Option, str_eq, if◌then◌else◌}
use colab.Prelude.Text.{Text, codes, lower, contains}
use colab.Prelude.Uuid.{Uuid}

pub data Tier : Type 0 where
  free premium pro : Tier

pub data SubStatus : Type 0 where
  trialing active past_due grace paused canceled expired : SubStatus

pub data Source : Type 0 where
  from_stripe from_revenuecat : Source

pub data Gateway : Type 0 where
  stripe apple google paddle_in : Gateway

pub data BillingPeriod : Type 0 where
  month year : BillingPeriod

pub record Subscription : Type 0 where
  pub id : Uuid
  pub user_id : Uuid
  pub source : Source
  pub gateway : Gateway
  pub tier : Tier
  pub status : SubStatus
  pub store_subscription_id : String
  pub store_product_id : Text
  pub billing_period : BillingPeriod
  pub current_period_start : ℕ
  pub current_period_end : ℕ
  pub cancel_at_period_end : Bool
  pub trial_end : Option ℕ
  pub started_at : ℕ
  pub canceled_at : Option ℕ
  pub ended_at : Option ℕ
  pub updated_at : ℕ

-- `STRIPE_STATUS_MAP.get(status_raw, "active")`
unfoldable pub stripe_status : String → SubStatus
stripe_status raw =
    if str_eq raw "trialing"
    then trialing
    else if str_eq raw "past_due"
    then past_due
    else if str_eq raw "canceled"
    then canceled
    else if str_eq raw "unpaid"
    then past_due
    else if str_eq raw "incomplete"
    then past_due
    else if str_eq raw "incomplete_expired"
    then expired
    else if str_eq raw "paused"
    then paused
    else active

-- `RC_STATUS_MAP.get(event_type, "active")`
unfoldable pub rc_status : String → SubStatus
rc_status event =
    if str_eq event "CANCELLATION"
    then canceled
    else if str_eq event "EXPIRATION"
    then expired
    else if str_eq event "BILLING_ISSUE"
    then past_due
    else if str_eq event "SUBSCRIPTION_PAUSED"
    then paused
    else active

-- `_map_product_to_tier`, and `_stripe_tier_from_product` of app/workers/stripe_handlers.py
unfoldable pub map_product_to_tier : Text → Tier
map_product_to_tier product_id =
    let pid = lower product_id in
    if contains (codes "pro") pid
    then pro
    else if contains (codes "premium") pid
    then premium
    else free
