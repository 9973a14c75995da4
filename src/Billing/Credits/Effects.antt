-- ===== src/Billing/Credits/Effects.antt =====
-- What the three kinds of write of app/services/credits.py do to every user's balance, to every
-- sum over the ledger and to the primary key: a new row with a credited wallet, a reservation
-- that is committed, and one that is released.
use colab.Prelude.{
  ℕ, String, ◌||◌, false, ◌≡◌, refl, ap, none, some, List, [], ◌∷◌, arith, ◌==◌, str_eq,
  if◌then◌else◌, update_where, any,
}
use colab.Prelude.Int.{ℤ, ◌+ℤ◌, int_laws, pos_part, neg_part}
use colab.Prelude.Uuid.{Uuid}
use colab.Billing.Credits.{get_or_create_wallet, compensation}
use colab.Billing.Credits.Rows.{
  CreditTransaction, CreditDb, TxReason, committed, released, insert_tx, find_tx, find_key,
  find_wallet, add_to_wallet, update_tx,
}
use colab.Billing.Credits.Sums.{
  balance_of, total, UniqueIds, total-update, balance-add, balance-get_or_create, created,
  txs-get_or_create, txs-add,
}

any-false :
    (id : Uuid) (k : String) (ts : List CreditTransaction)
    → any (λ t. t.id == id || str_eq t.idempotency_key k) ts ≡ false
    → (find_tx id ts ≡ none) × (find_key k ts ≡ none)
any-false id k [] h = (refl, refl)
any-false id k (t ∷ ts) h = ground (arith, any-false id k ts)

module _ (tx : CreditTransaction) (db : CreditDb) {db' : CreditDb}
    (h : insert_tx tx db ≡ some db') where
  -- A row that the constraints admit is new by its id and by its key.
  pub inserted :
      (db'.wallets ≡ db.wallets)
      × (db'.txs ≡ tx ∷ db.txs)
      × (find_tx tx.id db.txs ≡ none)
      × (find_key tx.idempotency_key db.txs ≡ none)
  unfolding insert_tx
  inserted = ground (arith, any-false tx.id tx.idempotency_key db.txs)

  pub UniqueIds-insert : UniqueIds db.txs → UniqueIds db'.txs
  UniqueIds-insert q = rw inserted.1 (inserted.2, q)

  pub total-insert : (wt : CreditTransaction → ℤ) → total wt db'.txs ≡ wt tx +ℤ total wt db.txs
  unfolding total
  total-insert wt = rw inserted.1

-- Changing a row but its id keeps the ids apart.
find_tx-update :
    (i id : Uuid) (f : CreditTransaction → CreditTransaction) (ts : List CreditTransaction)
    → ((t : CreditTransaction) → (f t).id ≡ t.id)
    → find_tx i ts ≡ none
    → find_tx i (update_where (λ t. t.id == id) f ts) ≡ none
find_tx-update i id f [] k h = refl
find_tx-update i id f (t ∷ ts) k h = ground (arith, k t, find_tx-update i id f ts k)

pub UniqueIds-update :
    (id : Uuid) (f : CreditTransaction → CreditTransaction) (ts : List CreditTransaction)
    → ((t : CreditTransaction) → (f t).id ≡ t.id)
    → UniqueIds ts
    → UniqueIds (update_where (λ t. t.id == id) f ts)
UniqueIds-update id f [] k q = tt
UniqueIds-update id f (t ∷ ts) k q =
    ground (arith, k t, find_tx-update t.id id f ts k q.0, UniqueIds-update id f ts k q.1)

-- A new row whose amount is added to the wallet: purchases, grants and adjustments.
module _ (tx : CreditTransaction) (u : Uuid) (d : ℤ) (now : ℕ) (db : CreditDb) {db' : CreditDb}
    (h : insert_tx tx (get_or_create_wallet u now db).1 ≡ some db') where
  has_wallet : find_wallet u db'.wallets ≡ some (get_or_create_wallet u now db).0
  has_wallet = rw (inserted tx _ h).0 (created u now db)

  pub balance-credit :
      (v : Uuid)
      → balance_of v (add_to_wallet u d now db').wallets
        ≡ (if u == v then balance_of v db.wallets +ℤ d else balance_of v db.wallets)
  balance-credit v =
      rw (balance-add u d now v {w = (get_or_create_wallet u now db).0} db' has_wallet)
        (rw ((inserted tx _ h).0, balance-get_or_create u now db v))

  pub total-credit :
      (wt : CreditTransaction → ℤ)
      → total wt (add_to_wallet u d now db').txs ≡ wt tx +ℤ total wt db.txs
  total-credit wt = rw (txs-add, total-insert tx _ h wt, txs-get_or_create)

  pub UniqueIds-credit : UniqueIds db.txs → UniqueIds (add_to_wallet u d now db').txs
  UniqueIds-credit q = rw txs-add (UniqueIds-insert tx _ h (rw txs-get_or_create q))

regroup : (a b c d e : ℤ) → b +ℤ c ≡ d +ℤ e → a +ℤ b +ℤ c ≡ a +ℤ (d +ℤ e)
regroup a b c d e h = omega (int_laws, ap pos_part h, ap neg_part h)

-- A pending reservation that is committed.
module _ (id : Uuid) (now : ℕ) (db : CreditDb) (tx : CreditTransaction) (q : UniqueIds db.txs)
    (found : find_tx id db.txs ≡ some tx) where
  abbrev pub mark_committed : CreditTransaction → CreditTransaction
  mark_committed t = record t { status = committed; committed_at = some now }

  abbrev pub mark_released : CreditTransaction → CreditTransaction
  mark_released t = record t { status = released }

  abbrev pub after_commit : CreditDb
  after_commit =
      add_to_wallet tx.user_id tx.delta now
        (get_or_create_wallet tx.user_id now (update_tx id mark_committed db)).1

  pub balance-commit :
      (v : Uuid)
      → balance_of v after_commit.wallets
        ≡ (if tx.user_id == v then balance_of v db.wallets +ℤ tx.delta else balance_of v db.wallets)
  unfolding update_tx
  balance-commit v =
      let db' = (get_or_create_wallet tx.user_id now (update_tx id mark_committed db)) in
      rw (balance-add tx.user_id tx.delta now v {w = db'.0} db'.1 (created tx.user_id now _))
        (rw balance-get_or_create)

  pub total-commit :
      (wt : CreditTransaction → ℤ)
      → total wt after_commit.txs +ℤ wt tx ≡ total wt db.txs +ℤ wt (mark_committed tx)
  unfolding update_tx
  total-commit wt =
      rw (txs-add, txs-get_or_create) (total-update wt id mark_committed {tx = tx} db.txs q found)

  pub UniqueIds-commit : UniqueIds after_commit.txs
  unfolding update_tx
  UniqueIds-commit =
      rw (txs-add, txs-get_or_create) (UniqueIds-update id mark_committed db.txs (λ t. refl) q)

  -- A pending reservation that is released, with its compensating row.
  module _ (fresh : Uuid) (reason : TxReason) {db' : CreditDb}
      (h : insert_tx (compensation fresh reason now tx) (update_tx id mark_released db)
        ≡ some db') where
    pub wallets-release : db'.wallets ≡ db.wallets
    unfolding update_tx
    wallets-release = (inserted (compensation fresh reason now tx) _ h).0

    pub total-release :
        (wt : CreditTransaction → ℤ)
        → total wt db'.txs +ℤ wt tx
          ≡ wt (compensation fresh reason now tx) +ℤ (total wt db.txs +ℤ wt (mark_released tx))
    unfolding update_tx
    total-release wt =
        rw (total-insert (compensation fresh reason now tx) _ h wt)
          (regroup _ _ _ _ _ (total-update wt id mark_released {tx = tx} db.txs q found))

    pub UniqueIds-release : UniqueIds db'.txs
    unfolding update_tx
    UniqueIds-release =
        UniqueIds-insert (compensation fresh reason now tx) _ h
          (UniqueIds-update id mark_released db.txs (λ t. refl) q)
