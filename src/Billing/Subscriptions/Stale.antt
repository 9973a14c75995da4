-- ===== src/Billing/Subscriptions/Stale.antt =====
-- The guard against late events.
use colab.Prelude.{ℕ, ◌<◌, String, ◌≡◌, Option, none, some, List, [], ◌∷◌}
use colab.Prelude.Uuid.{Uuid}
use text.Mathlib.TextPositions.{eq_refl as str_eq_refl}
use colab.Billing.Subscriptions.{StripeSub, upsert_subscription_from_stripe, or_default}
use colab.Billing.Subscriptions.Rows.{Subscription, Tier}

-- A webhook event, with the times and the id of a row that its handling uses.
pub record StripeEvent : Type 0 where
  pub obj : StripeSub
  pub user : Uuid
  pub tier : Tier
  pub event_ts : ℕ
  pub fresh : Uuid
  pub now : ℕ
  pub stamp : ℕ

abbrev store_id : StripeEvent → String
store_id e = or_default e.obj.id ""

abbrev upserted : StripeEvent → List Subscription → Option (Subscription × List Subscription)
upserted e subs =
    upsert_subscription_from_stripe e.obj e.user e.tier e.event_ts e.fresh e.now e.stamp subs

-- The events in their order; `none` where one raises.
unfoldable pub upsert_all : List StripeEvent → List Subscription → Option (List Subscription)
upsert_all [] subs = some subs
upsert_all (e ∷ es) subs = elim (upserted e subs) [ none ↦ none | some r ↦ upsert_all es r.1 ]

-- An event of the same subscription that Stripe made after the row was written.
abbrev pub IsLaterThan : String → ℕ → StripeEvent → Type 0
IsLaterThan id stamp e = (or_default e.obj.id "" ≡ id) × (stamp < e.event_ts)
