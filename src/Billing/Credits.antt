-- ===== src/Billing/Credits.antt =====
-- services/billing-svc/app/services/credits.py and the credit endpoints of app/routers/internal.py.
-- Each function takes the session, the identifiers that `uuid4` makes and the time, and returns
-- its result or the exception with the session that it leaves.
pub mod Rows
pub mod Sums
pub mod Effects
pub mod Requests
pub mod Changes
pub mod Balance
pub mod Solvency
pub mod Replay
pub mod Settling
use colab.Prelude.{
  ℕ, String, Bool, Option, none, some, List, [], ◌∷◌, ◌&&◌, str_eq, ◌==◌, if◌then◌else◌,
}
use colab.Prelude.Int.{ℤ, pos, ◌+ℤ◌, neg, ltb_ℤ}
use colab.Prelude.Uuid.{Uuid, uuid_str}
use Prim.Native.String.{◌++◌ as str_append}
use Rows.{
  TxReason, TxStatus, purchase, admin_grant, subscription_grant, reserve, reserved, committed,
  released, is_reserved, CreditTransaction, CreditWallet, CreditDb, Session, begin, commit,
  rollback, insert_tx, find_wallet, find_tx, find_key, add_to_wallet, update_tx,
}

pub data CreditsError : Type 0 where
  insufficient : ℤ → ℤ → CreditsError
  integrity_error no_result_found transaction_closed : CreditsError

pub data Result (A : Type 0) : Type 0 where
  ok : A → Result A
  err : CreditsError → Result A

abbrev or_created : Uuid → ℕ → CreditDb → Option CreditWallet → CreditWallet × CreditDb
or_created u now db (some w) = (w, db)
or_created u now db none =
    let w : CreditWallet = record { user_id = u; balance = pos 0; updated_at = now } in
    (w, record db { wallets = w ∷ db.wallets })

-- `_get_or_create_wallet`
unfoldable pub get_or_create_wallet : Uuid → ℕ → CreditDb → CreditWallet × CreditDb
get_or_create_wallet u now db = or_created u now db (find_wallet u db.wallets)

-- `_sum_reserved`
unfoldable pub sum_reserved : Uuid → List CreditTransaction → ℤ
sum_reserved u [] = pos 0
sum_reserved u (t ∷ ts) =
    let rest = sum_reserved u ts in
    if t.user_id == u && is_reserved t.status then t.delta +ℤ rest else rest

-- `result.scalar_one()` after the rollback
abbrev existing : Option CreditTransaction → Session → Result CreditTransaction × Session
existing none s = (err no_result_found, s)
existing (some t) s = (ok t, s)

-- Inside the `session.begin()` of `get_session`, the rollback closes the transaction, and the `select` that follows
-- it raises SQLAlchemy's InvalidRequestError.
abbrev flush_reserve : CreditTransaction → Session → Option CreditDb → Result Uuid × Session
flush_reserve tx s (some db) = (ok tx.id, record s { work = db })
flush_reserve tx s none = (err transaction_closed, rollback s)

unfoldable pub reserve_credits :
    Uuid → ℤ → String → String → String → Uuid → ℕ → Session → Result Uuid × Session
unfolding get_or_create_wallet
reserve_credits u amount kind ref key fresh now s =
    let (wallet, db) = get_or_create_wallet u now s.work in
    let available = wallet.balance +ℤ sum_reserved u db.txs in
    let tx : CreditTransaction = record {
      id = fresh;
      user_id = u;
      delta = neg amount;
      reason = reserve;
      reference_kind = kind;
      reference_id = ref;
      idempotency_key = key;
      status = reserved;
      committed_at = none;
    } in
    if ltb_ℤ available amount
    then (err (insufficient available amount), record s { work = db })
    else flush_reserve tx s (insert_tx tx db)

abbrev commit_tx : ℕ → Uuid → Option CreditTransaction → Session → Session
commit_tx now id none s = s
commit_tx now id (some tx) s =
    if is_reserved tx.status
    then (let marked =
          update_tx id (λ t. record t { status = committed; committed_at = some now }) s.work in
        let (wallet, db) = get_or_create_wallet tx.user_id now marked in
        record s { work = add_to_wallet tx.user_id tx.delta now db })
    else s

unfoldable pub commit_reservation : Uuid → ℕ → Session → Session
unfolding update_tx get_or_create_wallet add_to_wallet
commit_reservation id now s = commit_tx now id (find_tx id s.work.txs) s

abbrev flushed : Session → Option CreditDb → Result Unit × Session
flushed s none = (err integrity_error, rollback s)
flushed s (some db) = (ok tt, record s { work = db })

abbrev compensation : Uuid → TxReason → ℕ → CreditTransaction → CreditTransaction
compensation fresh reason now tx = record {
  id = fresh;
  user_id = tx.user_id;
  delta = neg tx.delta;
  reason = reason;
  reference_kind = "credit_transaction";
  reference_id = uuid_str tx.id;
  idempotency_key = str_append "release:" (uuid_str tx.id);
  status = committed;
  committed_at = some now;
}

abbrev release_tx :
    Uuid → TxReason → Uuid → ℕ → Option CreditTransaction → Session → Result Unit × Session
release_tx id reason fresh now none s = (ok tt, s)
release_tx id reason fresh now (some tx) s =
    if is_reserved tx.status
    then flushed s (
        insert_tx (compensation fresh reason now tx)
          (update_tx id (λ t. record t { status = released }) s.work))
    else (ok tt, s)

unfoldable pub release_reservation : Uuid → TxReason → Uuid → ℕ → Session → Result Unit × Session
unfolding update_tx
release_reservation id reason fresh now s = release_tx id reason fresh now (find_tx id s.work.txs) s

abbrev grant_row : Uuid → ℤ → TxReason → String → String → String → Uuid → ℕ → CreditTransaction
grant_row u amount reason kind ref key fresh now = record {
  id = fresh;
  user_id = u;
  delta = amount;
  reason = reason;
  reference_kind = kind;
  reference_id = ref;
  idempotency_key = key;
  status = committed;
  committed_at = some now;
}

unfoldable pub credit_purchase :
    Uuid → ℤ → String → String → String → Uuid → ℕ → Session → Result CreditTransaction × Session
unfolding get_or_create_wallet add_to_wallet
credit_purchase u amount kind ref key fresh now s =
    let (wallet, db) = get_or_create_wallet u now s.work in
    let tx = grant_row u amount purchase kind ref key fresh now in
    elim (insert_tx tx db) [
      | none ↦ existing (find_key key s.base.txs) (rollback s)
      | some db' ↦ (ok tx, record s { work = add_to_wallet u amount now db' })
    ]

-- `day` is `period_start.date().isoformat()`.
unfoldable pub grant_subscription_credits :
    Uuid → ℤ → Uuid → String → Uuid → ℕ → Session → Option CreditTransaction × Session
unfolding get_or_create_wallet add_to_wallet
grant_subscription_credits u amount sub day fresh now s =
    let key = str_append "grant:" (str_append (uuid_str sub) (str_append ":" day)) in
    let (wallet, db) = get_or_create_wallet u now s.work in
    let tx = grant_row u amount subscription_grant "subscription" (uuid_str sub) key fresh now in
    elim (insert_tx tx db) [
      | none ↦ (none, rollback s)
      | some db' ↦ (some tx, record s { work = add_to_wallet u amount now db' })
    ]

unfoldable pub admin_adjust_credits :
    Uuid → ℤ → String → Uuid → ℕ → Session → Result CreditTransaction × Session
unfolding get_or_create_wallet add_to_wallet
admin_adjust_credits u delta action fresh now s =
    let (wallet, db) = get_or_create_wallet u now s.work in
    let tx =
      grant_row u delta admin_grant "admin_action" action (str_append "admin:" action) fresh now in
    elim (insert_tx tx db) [
      | none ↦ (err integrity_error, rollback s)
      | some db' ↦ (ok tx, record s { work = add_to_wallet u delta now db' })
    ]
