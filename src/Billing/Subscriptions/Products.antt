-- ===== src/Billing/Subscriptions/Products.antt =====
-- The tier of a product id.
use colab.Prelude.{◌≡◌, refl, ◌++◌}
use colab.Prelude.Text.{Text, codes}
use colab.Billing.Subscriptions.Rows.{pro, map_product_to_tier}

-- Every product id that begins as Stripe's do, with `prod_`, stands for the tier `pro`.
stripe_products_are_pro : (rest : Text) → map_product_to_tier (codes "prod_" ++ rest) ≡ pro
unfolding map_product_to_tier
stripe_products_are_pro rest = refl
