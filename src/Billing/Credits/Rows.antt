-- ===== src/Billing/Credits/Rows.antt =====
-- The credit tables of services/billing-svc/app/models/billing.py: wallets, the transaction
-- ledger with its constraints, and the database session that the service functions write through.
use colab.Prelude.{
  ℕ, String, Bool, true, false, ◌||◌, not, Option, none, some, List, ◌∷◌, find, any, update_where,
  ◌==◌, str_eq, if◌then◌else◌,
}
use colab.Prelude.Int.{ℤ, ◌+ℤ◌}
use colab.Prelude.Uuid.{Uuid}

pub data TxStatus : Type 0 where
  reserved committed released reversed : TxStatus

-- The reasons that `ck_ct_reason` lists; `unlisted` is any other text.
pub data TxReason : Type 0 where
  purchase admin_grant subscription_grant consume reserve release refund expire : TxReason
  unlisted : String → TxReason

abbrev pub is_listed : TxReason → Bool
is_listed (unlisted _) = false
is_listed _ = true

abbrev pub is_reserved : TxStatus → Bool
is_reserved reserved = true
is_reserved _ = false

pub record CreditTransaction : Type 0 where
  pub id : Uuid
  pub user_id : Uuid
  pub delta : ℤ
  pub reason : TxReason
  pub reference_kind : String
  pub reference_id : String
  pub idempotency_key : String
  pub status : TxStatus
  pub committed_at : Option ℕ

pub record CreditWallet : Type 0 where
  pub user_id : Uuid
  pub balance : ℤ
  pub updated_at : ℕ

pub record CreditDb : Type 0 where
  pub wallets : List CreditWallet
  pub txs : List CreditTransaction

-- `base` is what the database holds if the transaction is rolled back, `work` what the
-- transaction sees.
pub record Session : Type 0 where
  pub base : CreditDb
  pub work : CreditDb

abbrev pub begin : CreditDb → Session
begin db = record { base = db; work = db }

abbrev pub commit : Session → Session
commit s = record s { base = s.work }

abbrev pub rollback : Session → Session
rollback s = record s { work = s.base }

-- The primary key, `uq_ct_idempotency_key` and `ck_ct_reason`: `none` is an IntegrityError.
unfoldable pub insert_tx : CreditTransaction → CreditDb → Option CreditDb
insert_tx tx db =
    if any (λ t. t.id == tx.id || str_eq t.idempotency_key tx.idempotency_key) db.txs
      || not (is_listed tx.reason)
    then none
    else some (record db { txs = tx ∷ db.txs })

abbrev pub find_wallet : Uuid → List CreditWallet → Option CreditWallet
find_wallet u = find (λ w. w.user_id == u)

abbrev pub find_tx : Uuid → List CreditTransaction → Option CreditTransaction
find_tx id = find (λ t. t.id == id)

abbrev pub find_key : String → List CreditTransaction → Option CreditTransaction
find_key k = find (λ t. str_eq t.idempotency_key k)

-- `wallet.balance += delta; wallet.updated_at = now`
unfoldable pub add_to_wallet : Uuid → ℤ → ℕ → CreditDb → CreditDb
add_to_wallet u delta now db = record db {
  wallets =
      update_where (λ w. w.user_id == u)
        (λ w. record w { balance = w.balance +ℤ delta; updated_at = now }) db.wallets;
}

unfoldable pub update_tx : Uuid → (CreditTransaction → CreditTransaction) → CreditDb → CreditDb
update_tx id f db = record db { txs = update_where (λ t. t.id == id) f db.txs }
