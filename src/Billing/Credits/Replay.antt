-- ===== src/Billing/Credits/Replay.antt =====
-- Redelivered requests: idempotency keys stay taken, and a reservation is settled only once.
use colab.Prelude.{
  ℕ, String, true, Bool, Bool-cases, Option-cases, inl, inr, ◌⊎◌, ◌≡◌, refl, ◌∙◌, some, none,
  Option, List, [], ◌∷◌, ◌||◌, ◌==◌, str_eq, any, update_where, if◌then◌else◌, arith,
}
use colab.Prelude.Int.{ℤ, ltb_ℤ, neg}
use colab.Prelude.Uuid.{Uuid, uuid_str}
use text.Mathlib.TextPositions.{eq_refl as str_eq_refl}
use Prim.Native.String.{◌++◌ as str_append}
use colab.Billing.Credits.{
  get_or_create_wallet, reserve_credits, credit_purchase, grant_subscription_credits, compensation,
  grant_row,
}
use colab.Billing.Credits.Rows.{
  CreditTransaction, CreditDb, insert_tx, find_tx, find_key, update_tx, purchase, reserve, reserved,
  subscription_grant, is_listed, released, committed,
}
use colab.Billing.Credits.Sums.{txs-get_or_create, txs-add, wallet-get_or_create}
use colab.Billing.Credits.Effects.{inserted}
use colab.Billing.Credits.Requests.{
  Request, serve, run, reserve_credits_endpoint, purchase_req, grant_req, key_or_default,
  payment_required, server_error,
}
use colab.Billing.Credits.Changes.{
  Change, unchanged, credited, pending, settled_by, released_by, serve-Change,
}
use colab.Billing.Credits.Solvency.{available}

abbrev pub key_taken : String → CreditDb → Bool
key_taken k db = any (λ t. str_eq t.idempotency_key k) db.txs

-- A taken key makes the insert an IntegrityError.
insert_taken :
    (tx : CreditTransaction) (ts : List CreditTransaction)
    → any (λ t. str_eq t.idempotency_key tx.idempotency_key) ts ≡ true
    → any (λ t. t.id == tx.id || str_eq t.idempotency_key tx.idempotency_key) ts ≡ true
insert_taken tx [] h = cc
insert_taken tx (t ∷ ts) h = ground (arith, insert_taken tx ts)

refused :
    (tx : CreditTransaction) (db : CreditDb)
    → key_taken tx.idempotency_key db ≡ true
    → insert_tx tx db ≡ none
unfolding insert_tx
refused tx db h = rw (insert_taken tx db.txs h)

taken_of_found :
    (k : String) {t : CreditTransaction} (ts : List CreditTransaction)
    → find_key k ts ≡ some t
    → any (λ t. str_eq t.idempotency_key k) ts ≡ true
taken_of_found k [] h = cc
taken_of_found k {t} (x ∷ ts) h = ground (arith, taken_of_found k {t = t} ts)

found_of_taken :
    (k : String) (ts : List CreditTransaction)
    → any (λ t. str_eq t.idempotency_key k) ts ≡ true
    → (t : CreditTransaction) × (find_key k ts ≡ some t)
found_of_taken k [] h = absurd (cc)
found_of_taken k (x ∷ ts) h = elim (Bool-cases (str_eq x.idempotency_key k)) [
  | inl hit ↦ (x, rw hit)
  | inr miss ↦ let (t, e) = found_of_taken k ts (rw miss at h) in (t, rw miss e)
]

taken-update :
    (k : String) (id : Uuid) (f : CreditTransaction → CreditTransaction)
    (ts : List CreditTransaction)
    → ((t : CreditTransaction) → (f t).idempotency_key ≡ t.idempotency_key)
    → any (λ t. str_eq t.idempotency_key k) (update_where (λ t. t.id == id) f ts)
      ≡ any (λ t. str_eq t.idempotency_key k) ts
taken-update k id f [] keep = refl
taken-update k id f (t ∷ ts) keep = ground (arith, keep t, taken-update k id f ts keep)

more : (b c : Bool) → c ≡ true → (b || c) ≡ true
more b c h = ground arith

-- No request frees a key.
change-key_taken :
    (k : String) (r : Request) (now : ℕ) (db : CreditDb) {after : CreditDb}
    → key_taken k db ≡ true
    → Change r now db after
    → key_taken k after ≡ true
unfolding update_tx
change-key_taken k r now db h (unchanged e) = rw e h
change-key_taken k r now db h (credited tx u e eu ed es plain q) =
    rw (q, txs-add, (inserted tx _ e).1, txs-get_or_create) (more _ _ h)
change-key_taken k r now db h (pending tx u e eu ed held asked enough) =
    rw ((inserted tx _ e).1, txs-get_or_create) (more _ _ h)
change-key_taken k r now db h (settled_by id tx there held e) =
    rw (e, txs-add, txs-get_or_create)
      (taken-update k id (λ t. record t { status = committed; committed_at = some now }) db.txs
          (λ t. refl)
        ∙ h)
change-key_taken k r now db h (released_by id tx fresh reason there held e) =
    rw (inserted (compensation fresh reason now tx) _ e).1
      (more _ _ (taken-update k id (λ t. record t { status = released }) db.txs (λ t. refl) ∙ h))

run-key_taken :
    (k : String) (rs : List (Request × ℕ)) (db : CreditDb)
    → key_taken k db ≡ true
    → key_taken k (run rs db) ≡ true
unfolding run
run-key_taken k [] db h = h
run-key_taken k ((r, now) ∷ rs) db h =
    run-key_taken k rs (serve r now db) (change-key_taken k r now db h (serve-Change now db r))

-- A purchase whose key is taken changes nothing, and returns the row that has the key.
purchase_taken :
    (u : Uuid) (amount : ℤ) (kind ref key : String) (fresh : Uuid) (now : ℕ) (db : CreditDb)
    → key_taken key db ≡ true
    → serve (purchase_req u amount kind ref key fresh) now db ≡ db
unfolding serve credit_purchase insert_tx
purchase_taken u amount kind ref key fresh now db h =
    let (t, there) = found_of_taken key db.txs h in
    let tx = grant_row u amount purchase kind ref key fresh now in
    rw (refused tx (get_or_create_wallet u now db).1 (rw txs-get_or_create h), there)

any_of_refused :
    (tx : CreditTransaction) (ts : List CreditTransaction)
    → find_tx tx.id ts ≡ none
    → any (λ t. t.id == tx.id || str_eq t.idempotency_key tx.idempotency_key) ts ≡ true
    → any (λ t. str_eq t.idempotency_key tx.idempotency_key) ts ≡ true
any_of_refused tx [] new h = h
any_of_refused tx (t ∷ ts) new h = ground (arith, any_of_refused tx ts)

-- After an insert was tried with a new id, its key is taken, whether it went in or not.
taken_after_insert :
    (tx : CreditTransaction) (db : CreditDb)
    → find_tx tx.id db.txs ≡ none
    → is_listed tx.reason ≡ true
    → ((insert_tx tx db ≡ none) × (key_taken tx.idempotency_key db ≡ true))
      ⊎ ((db' : CreditDb) × (insert_tx tx db ≡ some db')
          × (key_taken tx.idempotency_key db' ≡ true))
taken_after_insert tx db new listed = elim (Option-cases (insert_tx tx db)) [
  | inl none_in ↦ inl (none_in, unfold insert_tx in ground (arith, any_of_refused tx db.txs new))
  | inr (db', e) ↦ inr (db', e, rw (inserted tx _ e).1 (rw str_eq_refl))
]

purchase_takes :
    (u : Uuid) (amount : ℤ) (kind ref key : String) (fresh : Uuid) (now : ℕ) (db : CreditDb)
    → find_tx fresh db.txs ≡ none
    → key_taken key (serve (purchase_req u amount kind ref key fresh) now db) ≡ true
unfolding serve credit_purchase insert_tx
purchase_takes u amount kind ref key fresh now db new =
    let tx = grant_row u amount purchase kind ref key fresh now in
    elim (taken_after_insert tx (get_or_create_wallet u now db).1 (rw txs-get_or_create new) refl) [
      | inl (refusal, had) ↦
          rw (purchase_taken u amount kind ref key fresh now db (rw txs-get_or_create at had))
            (rw txs-get_or_create at had)
      | inr (db', e, has) ↦ rw e (rw txs-add has)
    ]

-- A purchase that is delivered again, at any later time and with anything in between, changes
-- nothing, if the id made for the first delivery was new.
pub purchase_once :
    (u v : Uuid) (amount other : ℤ) (kind ref ref' key : String) (fresh again now later : ℕ)
    (rs : List (Request × ℕ)) (db : CreditDb)
    → find_tx fresh db.txs ≡ none
    → let after = run rs (serve (purchase_req u amount kind ref key fresh) now db) in
      serve (purchase_req v other kind ref' key again) later after ≡ after
purchase_once u v amount other kind ref ref' key fresh again now later rs db new =
    purchase_taken v other kind ref' key again later _
      (run-key_taken key rs _ (purchase_takes u amount kind ref key fresh now db new))

abbrev grant_key : Uuid → String → String
grant_key sub day = str_append "grant:" (str_append (uuid_str sub) (str_append ":" day))

grant_taken :
    (u : Uuid) (amount : ℤ) (sub : Uuid) (day : String) (fresh : Uuid) (now : ℕ) (db : CreditDb)
    → key_taken (grant_key sub day) db ≡ true
    → serve (grant_req u amount sub day fresh) now db ≡ db
unfolding serve grant_subscription_credits insert_tx
grant_taken u amount sub day fresh now db h =
    let key = grant_key sub day in
    let tx = grant_row u amount subscription_grant "subscription" (uuid_str sub) key fresh now in
    rw (refused tx (get_or_create_wallet u now db).1 (rw txs-get_or_create h))

grant_takes :
    (u : Uuid) (amount : ℤ) (sub : Uuid) (day : String) (fresh : Uuid) (now : ℕ) (db : CreditDb)
    → find_tx fresh db.txs ≡ none
    → key_taken (grant_key sub day) (serve (grant_req u amount sub day fresh) now db) ≡ true
unfolding serve grant_subscription_credits insert_tx
grant_takes u amount sub day fresh now db new =
    let key = grant_key sub day in
    let tx = grant_row u amount subscription_grant "subscription" (uuid_str sub) key fresh now in
    elim (taken_after_insert tx (get_or_create_wallet u now db).1 (rw txs-get_or_create new) refl) [
      | inl (refusal, had) ↦
          rw (grant_taken u amount sub day fresh now db (rw txs-get_or_create at had))
            (rw txs-get_or_create at had)
      | inr (db', e, has) ↦ rw e (rw txs-add has)
    ]

-- A subscription's credits for one day of period start are granted at most once: a second grant,
-- whatever its amount and its time, changes nothing, if the id made for the first was new.
grant_once :
    (u v : Uuid) (amount other : ℤ) (sub : Uuid) (day : String) (fresh again now later : ℕ)
    (rs : List (Request × ℕ)) (db : CreditDb)
    → find_tx fresh db.txs ≡ none
    → let after = run rs (serve (grant_req u amount sub day fresh) now db) in
      serve (grant_req v other sub day again) later after ≡ after
grant_once u v amount other sub day fresh again now later rs db new =
    grant_taken v other sub day again later _
      (run-key_taken (grant_key sub day) rs _ (grant_takes u amount sub day fresh now db new))

-- A reservation is asked for again under a key that is taken: nothing is written, and the answer is never the first
-- reservation, but 402 when what is left does not cover the amount once more, and a server error otherwise.
pub reserve_again :
    (u : Uuid) (amount : ℤ) (kind ref : String) (key : Option String) (fresh : Uuid) (now : ℕ)
    (db : CreditDb) {t : CreditTransaction}
    → find_key (key_or_default u ref key) db.txs ≡ some t
    → reserve_credits_endpoint u amount kind ref key fresh now db ≡ (
      (if ltb_ℤ (available u db) amount
          then payment_required (available u db) amount
          else server_error),
      db,
    )
unfolding reserve_credits_endpoint reserve_credits
reserve_again u amount kind ref key fresh now db {t} there =
    let tx : CreditTransaction = record {
      id = fresh;
      user_id = u;
      delta = neg amount;
      reason = reserve;
      reference_kind = kind;
      reference_id = ref;
      idempotency_key = key_or_default u ref key;
      status = reserved;
      committed_at = none;
    } in
    let had : key_taken (key_or_default u ref key) (get_or_create_wallet u now db).1 ≡ true =
      rw txs-get_or_create (taken_of_found (key_or_default u ref key) {t = t} db.txs there) in
    rw (refused tx (get_or_create_wallet u now db).1 had) (
      rw (wallet-get_or_create u now db, txs-get_or_create u now db)
        (elim (Bool-cases (ltb_ℤ (available u db) amount)) [
          | inl short ↦ rw short
          | inr enough ↦ rw enough
        ]))
