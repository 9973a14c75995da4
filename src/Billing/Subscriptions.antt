-- ===== src/Billing/Subscriptions.antt =====
-- services/billing-svc/app/services/subscriptions.py: the subscription rows that the Stripe and
-- RevenueCat webhooks write, and the tier that a product id stands for.
pub mod Rows
pub mod Stale
pub mod Products
use colab.Prelude.{
  ℕ, ◌*◌, ◌==◌, String, Bool, true, false, ◌&&◌, ◌||◌, Option, none, some, List, [], ◌∷◌, str_eq,
  leb, Scalar, no_row, one_row, multiple_rows, scalar_one_or_none, select, update_where,
  if◌then◌else◌,
}
use colab.Prelude.Text.{Text, codes, lower, contains}
use colab.Prelude.Uuid.{Uuid}
use colab.Billing.Subscriptions.Rows.{
  BillingPeriod, Gateway, Source, SubStatus, Subscription, Tier, active, apple, canceled, expired,
  free, from_revenuecat, from_stripe, google, grace, map_product_to_tier, month, paddle_in,
  past_due, paused, premium, pro, rc_status, stripe, stripe_status, trialing, year,
}

-- The keys of a Stripe subscription object that are read; the times are in seconds.
pub record StripeSub : Type 0 where
  pub id : Option String
  pub status : Option String
  pub current_period_start : Option ℕ
  pub current_period_end : Option ℕ
  pub trial_end : Option ℕ
  pub price_id : Option Text
  pub interval : Option String
  pub cancel_at_period_end : Option Bool

abbrev pub or_default {ℓ} : {A : Type ℓ} → Option A → A → A
or_default none d = d
or_default (some a) d = a

-- `datetime.fromtimestamp` of seconds
abbrev timestamp : ℕ → ℕ
timestamp n = n * 1_000_000

-- `datetime.fromtimestamp(ts) if ts else None`
abbrev truthy_timestamp : Option ℕ → Option ℕ
truthy_timestamp none = none
truthy_timestamp (some n) = if n == 0 then none else some (timestamp n)

abbrev pub is_over : SubStatus → Bool
is_over canceled = true
is_over expired = true
is_over _ = false

abbrev is_expired : SubStatus → Bool
is_expired expired = true
is_expired _ = false

abbrev stamp_if : Bool → ℕ → Option ℕ → Option ℕ
stamp_if b now (some t) = some t
stamp_if b now none = if b then some now else none

abbrev period_of : String → BillingPeriod
period_of interval = if str_eq interval "year" then year else month

-- The row that the handler writes over, from the object, the tier and the time. The `onupdate` of the column sets
-- `updated_at`; that it is left out where no other column changes is not told apart here.
abbrev pub stripe_updated : StripeSub → Tier → ℕ → ℕ → Subscription → Subscription
stripe_updated obj tier now stamp sub =
    let status = stripe_status (or_default obj.status "active") in
    record sub {
      tier = tier;
      status = status;
      current_period_start = timestamp (or_default obj.current_period_start 0);
      current_period_end = timestamp (or_default obj.current_period_end 0);
      cancel_at_period_end = or_default obj.cancel_at_period_end false;
      trial_end = truthy_timestamp obj.trial_end;
      canceled_at = stamp_if (is_over status) now sub.canceled_at;
      ended_at = stamp_if (is_expired status) now sub.ended_at;
      updated_at = stamp;
    }

abbrev pub stripe_created : StripeSub → Uuid → Tier → Uuid → ℕ → Subscription
stripe_created obj user tier fresh stamp = record {
  id = fresh;
  user_id = user;
  source = from_stripe;
  gateway = stripe;
  tier = tier;
  status = stripe_status (or_default obj.status "active");
  store_subscription_id = or_default obj.id "";
  store_product_id = or_default obj.price_id (codes "unknown");
  billing_period = period_of (or_default obj.interval "month");
  current_period_start = timestamp (or_default obj.current_period_start 0);
  current_period_end = timestamp (or_default obj.current_period_end 0);
  cancel_at_period_end = or_default obj.cancel_at_period_end false;
  trial_end = truthy_timestamp obj.trial_end;
  started_at = timestamp (or_default obj.current_period_start 0);
  canceled_at = none;
  ended_at = none;
  updated_at = stamp;
}

abbrev is_stripe : Source → Bool
is_stripe from_stripe = true
is_stripe from_revenuecat = false

abbrev pub is_stripe_row : String → Subscription → Bool
is_stripe_row store_id s = str_eq s.store_subscription_id store_id && is_stripe s.source

abbrev stripe_upsert :
    StripeSub
    → Uuid
    → Tier
    → ℕ
    → Uuid
    → ℕ
    → ℕ
    → List Subscription
    → Scalar Subscription
    → Option (Subscription × List Subscription)
stripe_upsert obj user tier event_ts fresh now stamp subs multiple_rows = none
stripe_upsert obj user tier event_ts fresh now stamp subs no_row =
    let sub = stripe_created obj user tier fresh stamp in some (sub, sub ∷ subs)
stripe_upsert obj user tier event_ts fresh now stamp subs (one_row sub) =
    if leb event_ts sub.updated_at
    then some (
      stripe_updated obj tier now stamp sub,
      update_where (λ s. s.id == sub.id) (stripe_updated obj tier now stamp) subs,
    )
    else some (sub, subs)

-- `upsert_subscription_from_stripe`: the row and the table, `none` where two rows match. `stamp` is
-- the `updated_at` that the database sets; the column is time-zone aware, so the guard is
-- `event_timestamp <= sub.updated_at`.
unfoldable pub upsert_subscription_from_stripe :
    StripeSub
    → Uuid
    → Tier
    → ℕ
    → Uuid
    → ℕ
    → ℕ
    → List Subscription
    → Option (Subscription × List Subscription)
unfolding stripe_status
upsert_subscription_from_stripe obj user tier event_ts fresh now stamp subs =
    stripe_upsert obj user tier event_ts fresh now stamp subs
      (scalar_one_or_none (select (is_stripe_row (or_default obj.id "")) subs))

-- The keys of a RevenueCat event that are read; the times are in milliseconds.
pub record RcEvent : Type 0 where
  pub product_id : Option Text
  pub store : Option Text
  pub original_transaction_id : Option String
  pub expiration_at_ms : Option ℕ
  pub purchased_at_ms : Option ℕ

-- `datetime.fromtimestamp(ms / 1000) if ms else datetime.now(UTC)`
abbrev ms_or_now : ℕ → Option ℕ → ℕ
ms_or_now now none = now
ms_or_now now (some ms) = if ms == 0 then now else ms * 1000

abbrev rc_gateway : Text → Gateway
rc_gateway store = if contains (codes "APP_STORE") store then apple else google

abbrev pub rc_updated : RcEvent → String → ℕ → ℕ → Subscription → Subscription
rc_updated ev event_type now stamp sub =
    let status = rc_status event_type in
    record sub {
      status = status;
      tier = map_product_to_tier (or_default ev.product_id (codes "unknown"));
      current_period_start = ms_or_now now ev.purchased_at_ms;
      current_period_end = ms_or_now now ev.expiration_at_ms;
      canceled_at = stamp_if (is_over status) now sub.canceled_at;
      updated_at = stamp;
    }

abbrev pub rc_created : RcEvent → String → Uuid → Uuid → String → ℕ → ℕ → Subscription
rc_created ev event_type user fresh tx_id now stamp = record {
  id = fresh;
  user_id = user;
  source = from_revenuecat;
  gateway = rc_gateway (or_default ev.store (codes "APP_STORE"));
  tier = map_product_to_tier (or_default ev.product_id (codes "unknown"));
  status = rc_status event_type;
  store_subscription_id = tx_id;
  store_product_id = or_default ev.product_id (codes "unknown");
  billing_period = month;
  current_period_start = ms_or_now now ev.purchased_at_ms;
  current_period_end = ms_or_now now ev.expiration_at_ms;
  cancel_at_period_end = false;
  trial_end = none;
  started_at = ms_or_now now ev.purchased_at_ms;
  canceled_at = none;
  ended_at = none;
  updated_at = stamp;
}

abbrev is_revenuecat : Source → Bool
is_revenuecat from_stripe = false
is_revenuecat from_revenuecat = true

abbrev pub is_rc_row : String → Subscription → Bool
is_rc_row tx_id s = str_eq s.store_subscription_id tx_id && is_revenuecat s.source

abbrev rc_upsert :
    RcEvent
    → String
    → Uuid
    → Uuid
    → String
    → ℕ
    → ℕ
    → List Subscription
    → Scalar Subscription
    → Option (Subscription × List Subscription)
rc_upsert ev event_type user fresh tx_id now stamp subs multiple_rows = none
rc_upsert ev event_type user fresh tx_id now stamp subs no_row =
    let sub = rc_created ev event_type user fresh tx_id now stamp in some (sub, sub ∷ subs)
rc_upsert ev event_type user fresh tx_id now stamp subs (one_row sub) = some (
  rc_updated ev event_type now stamp sub,
  update_where (λ s. s.id == sub.id) (rc_updated ev event_type now stamp) subs,
)

-- `upsert_subscription_from_rc`; `random` is the `str(uuid.uuid4())` that stands in for a missing
-- transaction id.
unfoldable pub upsert_subscription_from_rc :
    RcEvent
    → String
    → Uuid
    → Uuid
    → String
    → ℕ
    → ℕ
    → List Subscription
    → Option (Subscription × List Subscription)
unfolding rc_status map_product_to_tier
upsert_subscription_from_rc ev event_type user fresh random now stamp subs =
    let tx_id = or_default ev.original_transaction_id random in
    rc_upsert ev event_type user fresh tx_id now stamp subs
      (scalar_one_or_none (select (is_rc_row tx_id) subs))
