-- ===== src/Billing/Credits/Settling.antt =====
-- A reservation is settled, by a commit or a release, at most once.
use colab.Prelude.{
  ℕ, true, false, Bool-cases, inl, inr, ◌≡◌, ◌≢◌, refl, ◌∙◌, some, none, List, [], ◌∷◌, ◌==◌,
  ==_iff, update_where, arith,
}
use colab.Prelude.Uuid.{Uuid}
use colab.Billing.Credits.{commit_reservation, release_reservation, compensation}
use colab.Billing.Credits.Rows.{
  CreditTransaction, CreditDb, TxReason, is_reserved, find_tx, update_tx, released, committed,
}
use colab.Billing.Credits.Sums.{txs-get_or_create, txs-add}
use colab.Billing.Credits.Effects.{inserted}
use colab.Billing.Credits.Requests.{
  Request, serve, run, commit_credits_endpoint, release_credits_endpoint,
}
use colab.Billing.Credits.Changes.{
  Change, unchanged, credited, pending, settled_by, released_by, serve-Change,
}

-- The row of an id is there and is no pending reservation.
abbrev pub IsSettled : Uuid → CreditDb → Type 0
IsSettled id db =
    (tx : CreditTransaction) × (find_tx id db.txs ≡ some tx) × (is_reserved tx.status ≡ false)

find_tx-insert :
    (id : Uuid) (new : CreditTransaction) {tx : CreditTransaction} (ts : List CreditTransaction)
    → find_tx new.id ts ≡ none
    → find_tx id ts ≡ some tx
    → find_tx id (new ∷ ts) ≡ some tx
find_tx-insert id new {tx} ts fresh there = elim (Bool-cases (new.id == id)) [
  | inl same ↦ cc ((==_iff new.id id).0 same)
  | inr other ↦ rw other there
]

find_tx-update_ne :
    (id other : Uuid) (f : CreditTransaction → CreditTransaction) (ts : List CreditTransaction)
    → ((t : CreditTransaction) → (f t).id ≡ t.id)
    → other ≢ id
    → find_tx id (update_where (λ t. t.id == other) f ts) ≡ find_tx id ts
find_tx-update_ne id other f [] keep ne = refl
find_tx-update_ne id other f (t ∷ ts) keep ne =
    ground (arith, keep t, find_tx-update_ne id other f ts keep ne)

pub find_tx-update_self :
    (id : Uuid) (f : CreditTransaction → CreditTransaction) {tx : CreditTransaction}
    (ts : List CreditTransaction)
    → ((t : CreditTransaction) → (f t).id ≡ t.id)
    → find_tx id ts ≡ some tx
    → find_tx id (update_where (λ t. t.id == id) f ts) ≡ some (f tx)
find_tx-update_self id f [] keep e = cc
find_tx-update_self id f {tx} (t ∷ ts) keep e =
    ground (arith, keep t, find_tx-update_self id f {tx = tx} ts keep)

-- Two rows found by one id are one: a settled one cannot be the one that is held.
apart :
    (id other : Uuid) (ts : List CreditTransaction) {tx held : CreditTransaction}
    → find_tx id ts ≡ some tx
    → is_reserved tx.status ≡ false
    → find_tx other ts ≡ some held
    → is_reserved held.status ≡ true
    → other ≢ id
apart id other ts e done there h same = ground (arith, e, there, done, h, same)

change-IsSettled :
    (id : Uuid) (r : Request) (now : ℕ) (db : CreditDb) {after : CreditDb}
    → IsSettled id db
    → Change r now db after
    → IsSettled id after
unfolding update_tx
change-IsSettled id r now db h (unchanged e) = rw e h
change-IsSettled id r now db (tx, e, done) (credited new u i eu ed es plain q) =
    let (rows, keys, fresh, key) = inserted new _ i in
    (
      tx,
      rw (q, txs-add, keys, txs-get_or_create)
          (find_tx-insert id new db.txs (rw txs-get_or_create at fresh) e),
      done,
    )
change-IsSettled id r now db (tx, e, done) (pending new u i eu ed held asked enough) =
    let (rows, keys, fresh, key) = inserted new _ i in
    (
      tx,
      rw (keys, txs-get_or_create) (find_tx-insert id new db.txs (rw txs-get_or_create at fresh) e),
      done,
    )
change-IsSettled id r now db (tx, e, done) (settled_by other held there h q) = (
  tx,
  rw (q, txs-add, txs-get_or_create)
      (find_tx-update_ne id other (λ t. record t { status = committed; committed_at = some now })
          db.txs (λ t. refl) (apart id other db.txs e done there h)
        ∙ e),
  done,
)
change-IsSettled id r now db (tx, e, done) (released_by other held fresh reason there h i) =
    let (rows, keys, new, key) = inserted (compensation fresh reason now held) _ i in
    (
      tx,
      rw keys (
          find_tx-insert id (compensation fresh reason now held) _ new (
            find_tx-update_ne id other (λ t. record t { status = released }) db.txs (λ t. refl)
              (apart id other db.txs e done there h)
            ∙ e)),
      done,
    )

run-IsSettled :
    (id : Uuid) (rs : List (Request × ℕ)) (db : CreditDb)
    → IsSettled id db
    → IsSettled id (run rs db)
unfolding run
run-IsSettled id [] db h = h
run-IsSettled id ((r, now) ∷ rs) db h =
    run-IsSettled id rs (serve r now db) (change-IsSettled id r now db h (serve-Change now db r))

settled_stays :
    (id : Uuid) (reason : TxReason) (fresh now : ℕ) (db : CreditDb)
    → IsSettled id db
    → (commit_credits_endpoint id now db ≡ db)
      × (release_credits_endpoint id reason fresh now db ≡ db)
unfolding commit_credits_endpoint release_credits_endpoint commit_reservation release_reservation
settled_stays id reason fresh now db (tx, e, done) = (rw (e, done), rw (e, done))

-- Committing a row that is there leaves it settled, whatever it was.
commit-IsSettled :
    (id : Uuid) (now : ℕ) (db : CreditDb) {tx : CreditTransaction}
    → find_tx id db.txs ≡ some tx
    → IsSettled id (commit_credits_endpoint id now db)
unfolding commit_credits_endpoint commit_reservation update_tx
commit-IsSettled id now db {tx} there = elim (Bool-cases (is_reserved tx.status)) [
  | inl held ↦ (
    record tx { status = committed; committed_at = some now },
    rw (there, held, txs-add, txs-get_or_create)
        (find_tx-update_self id (λ t. record t { status = committed; committed_at = some now })
          {tx = tx} db.txs (λ t. refl) there),
    refl,
  )
  | inr done ↦ (tx, rw (there, done) there, done)
]

-- After the commit endpoint was called for a transaction that is there, any later commit or release
-- of it, with any requests in between, changes nothing.
pub committed_once :
    (id : Uuid) (now later : ℕ) (reason : TxReason) (fresh : Uuid) (rs : List (Request × ℕ))
    (db : CreditDb) {tx : CreditTransaction}
    → find_tx id db.txs ≡ some tx
    → let after = run rs (commit_credits_endpoint id now db) in
      (commit_credits_endpoint id later after ≡ after)
      × (release_credits_endpoint id reason fresh later after ≡ after)
committed_once id now later reason fresh rs db {tx} there =
    settled_stays id reason fresh later _
      (run-IsSettled id rs _ (commit-IsSettled id now db {tx = tx} there))
