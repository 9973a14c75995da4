-- ===== src/Billing/Credits/Sums.antt =====
-- Sums over the transaction ledger and balances of wallets, under each way that rows change.
use colab.Prelude.{
  ℕ, ◌&&◌, not, ◌≡◌, ◌≢◌, refl, inl, inr, Bool-cases, ==_iff, Option, none, some, List, [], ◌∷◌,
  arith, ◌==◌, if◌then◌else◌, update_where,
}
use colab.Prelude.Int.{ℤ, pos, ◌+ℤ◌, int_laws}
use colab.Prelude.Uuid.{Uuid}
use colab.Billing.Credits.{get_or_create_wallet, sum_reserved}
use colab.Billing.Credits.Rows.{
  CreditTransaction, CreditWallet, CreditDb, is_reserved, find_wallet, find_tx, add_to_wallet,
}

-- A wallet that is not there counts as empty.
abbrev balance : Option CreditWallet → ℤ
balance none = pos 0
balance (some w) = w.balance

abbrev pub balance_of : Uuid → List CreditWallet → ℤ
balance_of u ws = balance (find_wallet u ws)

-- The sum of a weight over the ledger.
unfoldable pub total : (CreditTransaction → ℤ) → List CreditTransaction → ℤ
total wt [] = pos 0
total wt (t ∷ ts) = wt t +ℤ total wt ts

-- What a row adds to its user's settled balance: all but pending reservations count.
abbrev pub settled_weight : Uuid → CreditTransaction → ℤ
settled_weight u t = if t.user_id == u && not (is_reserved t.status) then t.delta else pos 0

abbrev pub reserved_weight : Uuid → CreditTransaction → ℤ
reserved_weight u t = if t.user_id == u && is_reserved t.status then t.delta else pos 0

-- The sum of the deltas of a user's rows that are not pending reservations.
unfoldable pub settled : Uuid → List CreditTransaction → ℤ
settled u = total (settled_weight u)

pub sum_reserved-eq-total :
    (u : Uuid) (ts : List CreditTransaction) → sum_reserved u ts ≡ total (reserved_weight u) ts
unfolding sum_reserved total
sum_reserved-eq-total u [] = refl
sum_reserved-eq-total u (t ∷ ts) = elim (Bool-cases (t.user_id == u && is_reserved t.status)) [
  | inl pending ↦ rw (pending, sum_reserved-eq-total u ts)
  | inr other ↦ rw (other, sum_reserved-eq-total u ts) (omega int_laws)
]

-- The primary key: no id stands twice.
abbrev pub UniqueIds : List CreditTransaction → Type 0
UniqueIds [] = Unit
UniqueIds (t ∷ ts) = (find_tx t.id ts ≡ none) × UniqueIds ts

pub update_absent :
    (id : Uuid) (f : CreditTransaction → CreditTransaction) (ts : List CreditTransaction)
    → find_tx id ts ≡ none
    → update_where (λ t. t.id == id) f ts ≡ ts
update_absent id f [] h = refl
update_absent id f (t ∷ ts) h = ground (arith, update_absent id f ts)

-- Changing the row of an id changes a sum by the change of that row's weight.
pub total-update :
    (wt : CreditTransaction → ℤ) (id : Uuid) (f : CreditTransaction → CreditTransaction)
    {tx : CreditTransaction} (ts : List CreditTransaction)
    → UniqueIds ts
    → find_tx id ts ≡ some tx
    → total wt (update_where (λ t. t.id == id) f ts) +ℤ wt tx ≡ total wt ts +ℤ wt (f tx)
unfolding total
total-update wt id f [] q h = ground arith
total-update wt id f {tx} (t ∷ ts) q h =
    grind (int_laws, total-update wt id f {tx = tx} ts q.1, update_absent id f ts)

module _ (u : Uuid) (now : ℕ) (db : CreditDb) where
  pub balance-get_or_create :
      (v : Uuid) → balance_of v (get_or_create_wallet u now db).1.wallets ≡ balance_of v db.wallets
  unfolding get_or_create_wallet
  balance-get_or_create v = ground arith

  pub txs-get_or_create : (get_or_create_wallet u now db).1.txs ≡ db.txs
  unfolding get_or_create_wallet
  txs-get_or_create = ground arith

  pub wallet-get_or_create : (get_or_create_wallet u now db).0.balance ≡ balance_of u db.wallets
  unfolding get_or_create_wallet
  wallet-get_or_create = ground arith

  pub created :
      find_wallet u (get_or_create_wallet u now db).1.wallets
      ≡ some (get_or_create_wallet u now db).0
  unfolding get_or_create_wallet
  created = ground arith

module _ (u : Uuid) (d : ℤ) (now : ℕ) where
  abbrev credited : CreditWallet → CreditWallet
  credited w = record w { balance = w.balance +ℤ d; updated_at = now }

  find-add_ne :
      (v : Uuid) (ws : List CreditWallet)
      → v ≢ u
      → find_wallet v (update_where (λ w. w.user_id == u) credited ws) ≡ find_wallet v ws
  find-add_ne v [] h = refl
  find-add_ne v (w ∷ ws) h = ground (arith, find-add_ne v ws h)

  find-add_self :
      {w : CreditWallet} (ws : List CreditWallet)
      → find_wallet u ws ≡ some w
      → find_wallet u (update_where (λ w. w.user_id == u) credited ws) ≡ some (credited w)
  find-add_self [] h = cc
  find-add_self {w} (x ∷ ws) h = ground (arith, find-add_self {w = w} ws)

  -- Adding to a wallet that exists changes that balance alone.
  pub balance-add :
      (v : Uuid) {w : CreditWallet} (db : CreditDb)
      → find_wallet u db.wallets ≡ some w
      → balance_of v (add_to_wallet u d now db).wallets
        ≡ (if u == v then balance_of v db.wallets +ℤ d else balance_of v db.wallets)
  unfolding add_to_wallet
  balance-add v {w} db h = elim (Bool-cases (u == v)) [
    | inl same ↦ rw (same, ← (==_iff u v).0 same, find-add_self {w = w} db.wallets h, h)
    | inr other ↦ rw (other, find-add_ne v db.wallets (ground arith))
  ]

pub txs-add : (u : Uuid) (d : ℤ) (now : ℕ) (db : CreditDb) → (add_to_wallet u d now db).txs ≡ db.txs
unfolding add_to_wallet
txs-add u d now db = refl
