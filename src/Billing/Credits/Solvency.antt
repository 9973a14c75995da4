-- ===== src/Billing/Credits/Solvency.antt =====
-- No overdraft: what a user may still spend, the balance less the pending reservations, never
-- falls below zero, as long as no admin takes credits away.
use colab.Prelude.{
  ℕ, true, false, Bool-cases, inl, inr, ◌≡◌, refl, sym, ◌∙◌, ◌⊎◌, subst, some, List, [], ◌∷◌, All,
  ◌==◌, update_where, arith,
}
use mathlib.Core.Bool.{false≢true}
use colab.Prelude.Int.{ℤ, pos, int_laws, ltb_ℤ, neg, ◌+ℤ◌, ◌≤ℤ◌}
use colab.Prelude.Uuid.{Uuid}
use colab.Billing.Credits.{get_or_create_wallet, compensation, sum_reserved}
use colab.Billing.Credits.Rows.{
  CreditTransaction, CreditDb, TxReason, released, is_reserved, insert_tx, find_tx, add_to_wallet,
  update_tx,
}
use colab.Billing.Credits.Sums.{
  balance_of, reserved_weight, sum_reserved-eq-total, UniqueIds, balance-get_or_create,
  txs-get_or_create, wallet-get_or_create, txs-add,
}
use colab.Billing.Credits.Effects.{
  inserted, total-insert, UniqueIds-insert, balance-credit, total-credit, UniqueIds-credit,
  after_commit, balance-commit, total-commit, UniqueIds-commit, wallets-release, total-release,
  UniqueIds-release,
}
use colab.Billing.Credits.Requests.{
  Request, serve, run, empty, reserve_req, commit_req, release_req, purchase_req, grant_req,
  adjust_req,
}
use colab.Billing.Credits.Changes.{
  Change, unchanged, credited, pending, settled_by, released_by, amount_of, IsReserve, serve-Change,
}

-- What a user can still reserve.
abbrev pub available : Uuid → CreditDb → ℤ
available u db = balance_of u db.wallets +ℤ sum_reserved u db.txs

-- A pending reservation takes credits, it never adds any.
abbrev pub IsDebit : CreditTransaction → Type 0
IsDebit t = is_reserved t.status ≡ true → t.delta ≤ℤ pos 0

pub record IsSolvent (db : CreditDb) : Type 0 where
  pub covered : (u : Uuid) → pos 0 ≤ℤ available u db
  pub debits : All IsDebit db.txs
  pub unique : UniqueIds db.txs

-- The amounts that the endpoints and the webhook handlers pass: none is negative.
abbrev pub IsPlain : Request → Type 0
IsPlain (reserve_req _ amount _ _ _ _) = pos 0 ≤ℤ amount
IsPlain (purchase_req _ amount _ _ _ _) = pos 0 ≤ℤ amount
IsPlain (grant_req _ amount _ _ _) = pos 0 ≤ℤ amount
IsPlain (adjust_req _ delta _ _) = pos 0 ≤ℤ delta
IsPlain _ = Unit

amount-le : (r : Request) → IsPlain r → IsReserve r → amount_of r ≤ℤ pos 0
amount-le (reserve_req u amount kind ref key fresh) h a = omega int_laws
amount-le _ h a = elim a [ ]

amount-ge : (r : Request) → IsPlain r → ¬ (IsReserve r) → pos 0 ≤ℤ amount_of r
amount-ge (reserve_req u amount kind ref key fresh) h a = absurd (a tt)
amount-ge (purchase_req u amount kind ref key fresh) h a = h
amount-ge (grant_req u amount sub day fresh) h a = h
amount-ge (adjust_req u delta action fresh) h a = h
amount-ge (commit_req id) h a = omega arith
amount-ge (release_req id reason fresh) h a = omega arith

IsDebit-of :
    (id : Uuid) {tx : CreditTransaction} (ts : List CreditTransaction)
    → All IsDebit ts
    → find_tx id ts ≡ some tx
    → IsDebit tx
IsDebit-of id [] h e = cc
IsDebit-of id {tx} (t ∷ ts) h e = ground (arith, IsDebit-of id {tx = tx} ts h.1)

debits-update :
    (id : Uuid) (f : CreditTransaction → CreditTransaction) (ts : List CreditTransaction)
    → ((t : CreditTransaction) → is_reserved (f t).status ≡ false)
    → All IsDebit ts
    → All IsDebit (update_where (λ t. t.id == id) f ts)
debits-update id f [] k h = tt
debits-update id f (t ∷ ts) k h = elim (Bool-cases (t.id == id)) [
  | inl hit ↦ rw hit ((λ e. absurd (false≢true (sym (k t) ∙ e))), debits-update id f ts k h.1)
  | inr miss ↦ rw miss (h.0, debits-update id f ts k h.1)
]

credit-IsSolvent :
    (tx : CreditTransaction) (u : Uuid) (d : ℤ) (now : ℕ) (db : CreditDb) {db' : CreditDb}
    → insert_tx tx (get_or_create_wallet u now db).1 ≡ some db'
    → is_reserved tx.status ≡ false
    → pos 0 ≤ℤ d
    → IsSolvent db
    → IsSolvent (add_to_wallet u d now db')
credit-IsSolvent tx u d now db {db'} h plain more inv = record {
  covered = λ v. rw (sum_reserved-eq-total v (add_to_wallet u d now db').txs) (
      rw (balance-credit tx u d now db h v, total-credit tx u d now db h (reserved_weight v))
        (grind (int_laws, inv.covered v, sum_reserved-eq-total v db.txs)));
  debits =
      rw (txs-add, (inserted tx _ h).1, txs-get_or_create)
        ((λ e. absurd (false≢true (sym plain ∙ e))), inv.debits);
  unique = UniqueIds-credit tx u d now db h inv.unique;
}

-- The guard of `reserve_credits`, stated of the tables before it.
room :
    (u : Uuid) (now : ℕ) (d : ℤ) (db : CreditDb)
    → ltb_ℤ
        ((get_or_create_wallet u now db).0.balance
          +ℤ sum_reserved u (get_or_create_wallet u now db).1.txs)
        (neg d)
      ≡ false
    → neg d ≤ℤ available u db
room u now d db h =
    ground (arith, rw (wallet-get_or_create u now db, txs-get_or_create u now db) at h)

weight_cases :
    (u v : Uuid) (tx : CreditTransaction)
    → tx.user_id ≡ u
    → (reserved_weight v tx ≡ pos 0) ⊎ ((u ≡ v) × (reserved_weight v tx ≡ tx.delta))
weight_cases u v tx owner = ground arith

reserve-IsSolvent :
    (tx : CreditTransaction) (u : Uuid) (now : ℕ) (db : CreditDb) {db' : CreditDb}
    → insert_tx tx (get_or_create_wallet u now db).1 ≡ some db'
    → tx.user_id ≡ u
    → tx.delta ≤ℤ pos 0
    → ltb_ℤ
        ((get_or_create_wallet u now db).0.balance
          +ℤ sum_reserved u (get_or_create_wallet u now db).1.txs)
        (neg tx.delta)
      ≡ false
    → IsSolvent db
    → IsSolvent db'
reserve-IsSolvent tx u now db {db'} h owner debit enough inv = record {
  covered = λ v. rw (sum_reserved-eq-total v db'.txs) (
      rw ((inserted tx _ h).0, total-insert tx _ h (reserved_weight v))
        (rw (balance-get_or_create u now db v, txs-get_or_create u now db)
          (elim (weight_cases u v tx owner) [
            | inl none_held ↦
                rw (none_held, ← sum_reserved-eq-total v db.txs) (omega (int_laws, inv.covered v))
            | inr (same, held) ↦
                rw (held, ← sum_reserved-eq-total v db.txs)
                  (omega (
                    int_laws,
                    subst (λ w. neg tx.delta ≤ℤ available w db) same
                        (room u now tx.delta db enough),
                  ))
          ])));
  debits = rw ((inserted tx _ h).1, txs-get_or_create) ((λ e. debit), inv.debits);
  unique = UniqueIds-insert tx _ h (rw txs-get_or_create inv.unique);
}

commit-IsSolvent :
    (id : Uuid) (now : ℕ) (db : CreditDb) (tx : CreditTransaction) (inv : IsSolvent db)
    (found : find_tx id db.txs ≡ some tx)
    → is_reserved tx.status ≡ true
    → IsSolvent (after_commit id now db tx inv.unique found)
unfolding update_tx
commit-IsSolvent id now db tx inv found held = record {
  covered = λ v. rw (sum_reserved-eq-total v (after_commit id now db tx inv.unique found).txs) (
      rw (balance-commit id now db tx inv.unique found v) (
        grind (
          int_laws,
          inv.covered v,
          sum_reserved-eq-total v db.txs,
          total-commit id now db tx inv.unique found (reserved_weight v),
        )));
  debits = rw (txs-add, txs-get_or_create) (debits-update id _ db.txs (λ t. refl) inv.debits);
  unique = UniqueIds-commit id now db tx inv.unique found;
}

release-IsSolvent :
    (id : Uuid) (now : ℕ) (db : CreditDb) (tx : CreditTransaction) (inv : IsSolvent db)
    (found : find_tx id db.txs ≡ some tx) (fresh : Uuid) (reason : TxReason) {db' : CreditDb}
    → insert_tx
        (compensation fresh reason now tx)
        (update_tx id (λ t. record t { status = released }) db)
      ≡ some db'
    → is_reserved tx.status ≡ true
    → IsSolvent db'
unfolding update_tx
release-IsSolvent id now db tx inv found fresh reason {db'} h held = record {
  covered = λ v. rw (sum_reserved-eq-total v db'.txs) (
      rw (wallets-release id now db tx inv.unique found fresh reason h) (
        grind (
          int_laws,
          inv.covered v,
          IsDebit-of id {tx = tx} db.txs inv.debits found held,
          sum_reserved-eq-total v db.txs,
          total-release id now db tx inv.unique found fresh reason h (reserved_weight v),
        )));
  debits =
      rw (inserted (compensation fresh reason now tx) _ h).1
        ((λ e. cc), debits-update id _ db.txs (λ t. refl) inv.debits);
  unique = UniqueIds-release id now db tx inv.unique found fresh reason h;
}

change-IsSolvent :
    (r : Request) (now : ℕ) (db : CreditDb) {after : CreditDb}
    → IsPlain r
    → IsSolvent db
    → Change r now db after
    → IsSolvent after
change-IsSolvent r now db p inv (unchanged e) = rw e inv
change-IsSolvent r now db p inv (credited tx u h eu ed es plain e) =
    rw e (credit-IsSolvent tx u (amount_of r) now db h es (amount-ge r p plain) inv)
change-IsSolvent r now db p inv (pending tx u h eu ed held asked enough) =
    reserve-IsSolvent tx u now db h eu (rw ed (amount-le r p asked)) enough inv
change-IsSolvent r now db p inv (settled_by id tx there held e) =
    rw e (commit-IsSolvent id now db tx inv there held)
change-IsSolvent r now db p inv (released_by id tx fresh reason there held e) =
    release-IsSolvent id now db tx inv there fresh reason e held

run-IsSolvent :
    (rs : List (Request × ℕ)) (db : CreditDb)
    → All (λ q. IsPlain q.0) rs
    → IsSolvent db
    → IsSolvent (run rs db)
unfolding run
run-IsSolvent [] db p inv = inv
run-IsSolvent ((r, now) ∷ rs) db p inv =
    run-IsSolvent rs (serve r now db) p.1
      (change-IsSolvent r now db p.0 inv (serve-Change now db r))

empty-IsSolvent : IsSolvent empty
unfolding sum_reserved ◌+ℤ◌
empty-IsSolvent = record { covered = λ u. omega arith; debits = tt; unique = tt }

-- After any requests with no negative amount from empty tables, no user's balance less the
-- pending reservations is negative.
pub available-nonneg :
    (rs : List (Request × ℕ)) (u : Uuid)
    → All (λ q. IsPlain q.0) rs
    → pos 0 ≤ℤ available u (run rs empty)
available-nonneg rs u p = (run-IsSolvent rs empty p empty-IsSolvent).covered u
