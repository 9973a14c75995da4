-- ===== src/Billing/Credits/Balance.antt =====
-- The wallet's balance is what the ledger sums to ("Source of truth is CreditTransaction sum",
-- app/models/billing.py): an invariant of every request.
use colab.Prelude.{ℕ, true, false, ◌≡◌, refl, some, List, [], ◌∷◌}
use colab.Prelude.Int.{ℤ, int_laws}
use colab.Prelude.Uuid.{Uuid}
use colab.Billing.Credits.{get_or_create_wallet, compensation}
use colab.Billing.Credits.Rows.{
  CreditTransaction, CreditDb, TxReason, released, is_reserved, insert_tx, find_tx, add_to_wallet,
  update_tx,
}
use colab.Billing.Credits.Sums.{
  balance_of, total, settled, settled_weight, UniqueIds, balance-get_or_create, txs-get_or_create,
}
use colab.Billing.Credits.Effects.{
  inserted, total-insert, UniqueIds-insert, balance-credit, total-credit, UniqueIds-credit,
  after_commit, balance-commit, total-commit, UniqueIds-commit, wallets-release, total-release,
  UniqueIds-release,
}
use colab.Billing.Credits.Requests.{Request, serve, run, empty}
use colab.Billing.Credits.Changes.{
  Change, unchanged, credited, pending, settled_by, released_by, amount_of, serve-Change,
}

-- Every balance is the sum of the user's settled rows, and ids are unique.
pub record IsBalanced (db : CreditDb) : Type 0 where
  pub balanced : (u : Uuid) → balance_of u db.wallets ≡ settled u db.txs
  pub unique : UniqueIds db.txs

credit-IsBalanced :
    (tx : CreditTransaction) (u : Uuid) (d : ℤ) (now : ℕ) (db : CreditDb) {db' : CreditDb}
    → insert_tx tx (get_or_create_wallet u now db).1 ≡ some db'
    → tx.user_id ≡ u
    → tx.delta ≡ d
    → is_reserved tx.status ≡ false
    → IsBalanced db
    → IsBalanced (add_to_wallet u d now db')
unfolding settled
credit-IsBalanced tx u d now db {db'} h eu ed es inv = record {
  balanced = λ v.
      rw (balance-credit tx u d now db h v, total-credit tx u d now db h (settled_weight v))
        (grind (int_laws, inv.balanced v));
  unique = UniqueIds-credit tx u d now db h inv.unique;
}

commit-IsBalanced :
    (id : Uuid) (now : ℕ) (db : CreditDb) (tx : CreditTransaction) (inv : IsBalanced db)
    (found : find_tx id db.txs ≡ some tx)
    → is_reserved tx.status ≡ true
    → IsBalanced (after_commit id now db tx inv.unique found)
unfolding settled
commit-IsBalanced id now db tx inv found held = record {
  balanced = λ v. rw (balance-commit id now db tx inv.unique found v) (
      grind
        (int_laws, inv.balanced v, total-commit id now db tx inv.unique found (settled_weight v)));
  unique = UniqueIds-commit id now db tx inv.unique found;
}

release-IsBalanced :
    (id : Uuid) (now : ℕ) (db : CreditDb) (tx : CreditTransaction) (inv : IsBalanced db)
    (found : find_tx id db.txs ≡ some tx) (fresh : Uuid) (reason : TxReason) {db' : CreditDb}
    → insert_tx
        (compensation fresh reason now tx)
        (update_tx id (λ t. record t { status = released }) db)
      ≡ some db'
    → is_reserved tx.status ≡ true
    → IsBalanced db'
unfolding settled
release-IsBalanced id now db tx inv found fresh reason {db'} h held = record {
  balanced = λ v. rw (wallets-release id now db tx inv.unique found fresh reason h) (
      grind (
        int_laws,
        inv.balanced v,
        total-release id now db tx inv.unique found fresh reason h (settled_weight v),
      ));
  unique = UniqueIds-release id now db tx inv.unique found fresh reason h;
}

-- A new pending reservation leaves the settled sums alone.
reserve-IsBalanced :
    (tx : CreditTransaction) (u : Uuid) (now : ℕ) (db : CreditDb) {db' : CreditDb}
    → insert_tx tx (get_or_create_wallet u now db).1 ≡ some db'
    → is_reserved tx.status ≡ true
    → IsBalanced db
    → IsBalanced db'
unfolding settled
reserve-IsBalanced tx u now db {db'} h held inv = record {
  balanced = λ v.
      rw ((inserted tx _ h).0, total-insert tx _ h (settled_weight v))
        (rw (balance-get_or_create u now db v, txs-get_or_create u now db)
          (grind (int_laws, inv.balanced v)));
  unique = UniqueIds-insert tx _ h (rw txs-get_or_create inv.unique);
}

change-IsBalanced :
    (r : Request) (now : ℕ) (db : CreditDb) {after : CreditDb}
    → IsBalanced db
    → Change r now db after
    → IsBalanced after
change-IsBalanced r now db inv (unchanged e) = rw e inv
change-IsBalanced r now db inv (credited tx u h eu ed es plain e) =
    rw e (credit-IsBalanced tx u (amount_of r) now db h eu ed es inv)
change-IsBalanced r now db inv (pending tx u h eu ed held asked enough) =
    reserve-IsBalanced tx u now db h held inv
change-IsBalanced r now db inv (settled_by id tx there held e) =
    rw e (commit-IsBalanced id now db tx inv there held)
change-IsBalanced r now db inv (released_by id tx fresh reason there held e) =
    release-IsBalanced id now db tx inv there fresh reason e held

run-IsBalanced : (rs : List (Request × ℕ)) (db : CreditDb) → IsBalanced db → IsBalanced (run rs db)
unfolding run
run-IsBalanced [] db inv = inv
run-IsBalanced ((r, now) ∷ rs) db inv =
    run-IsBalanced rs (serve r now db) (change-IsBalanced r now db inv (serve-Change now db r))

empty-IsBalanced : IsBalanced empty
unfolding settled total
empty-IsBalanced = record { balanced = λ u. refl; unique = tt }

-- After any requests at any times from empty tables, each user's wallet balance is the sum of
-- the deltas of that user's rows in the ledger that are not pending reservations.
pub balance-eq-settled :
    (rs : List (Request × ℕ)) (u : Uuid)
    → balance_of u (run rs empty).wallets ≡ settled u (run rs empty).txs
balance-eq-settled rs u = (run-IsBalanced rs empty empty-IsBalanced).balanced u
