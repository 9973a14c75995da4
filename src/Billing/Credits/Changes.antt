-- ===== src/Billing/Credits/Changes.antt =====
-- The writes that a request can make, as a relation between two states of the tables: every
-- request of app/services/credits.py is one of them or leaves the tables alone.
use colab.Prelude.{
  ℕ, String, true, false, arith, Bool-cases, Option-cases, inl, inr, ◌≡◌, refl, some, none, Option,
}
use colab.Prelude.Int.{ℤ, ltb_ℤ, neg, ◌+ℤ◌}
use colab.Prelude.Uuid.{Uuid, uuid_str}
use Prim.Native.String.{◌++◌ as str_append}
use colab.Billing.Credits.{
  get_or_create_wallet, compensation, reserve_credits, commit_reservation, release_reservation,
  credit_purchase, grant_subscription_credits, admin_adjust_credits, sum_reserved, grant_row,
}
use colab.Billing.Credits.Rows.{
  CreditTransaction, CreditDb, TxReason, reserve, reserved, purchase, subscription_grant,
  admin_grant, committed, released, is_reserved, insert_tx, find_tx, find_key, add_to_wallet,
  update_tx,
}
use colab.Billing.Credits.Requests.{
  Request, serve, key_or_default, reserve_req, commit_req, release_req, purchase_req, grant_req,
  adjust_req,
}

-- What a request asks to add to its user's settled balance or pending reservations.
abbrev pub amount_of : Request → ℤ
amount_of (reserve_req _ amount _ _ _ _) = neg amount
amount_of (purchase_req _ amount _ _ _ _) = amount
amount_of (grant_req _ amount _ _ _) = amount
amount_of (adjust_req _ delta _ _) = delta
amount_of (commit_req _) = ℤ.pos 0
amount_of (release_req _ _ _) = ℤ.pos 0

abbrev pub IsReserve : Request → Type 0
IsReserve (reserve_req _ _ _ _ _ _) = Unit
IsReserve _ = ⊥

pub data Change (r : Request) (now : ℕ) (db : CreditDb) : CreditDb → Type 0 where
  unchanged : {after : CreditDb} → after ≡ db → Change r now db after
  credited :
      {after db' : CreditDb} (tx : CreditTransaction) (u : Uuid)
      → insert_tx tx (get_or_create_wallet u now db).1 ≡ some db'
      → tx.user_id ≡ u
      → tx.delta ≡ amount_of r
      → is_reserved tx.status ≡ false
      → ¬ (IsReserve r)
      → after ≡ add_to_wallet u (amount_of r) now db'
      → Change r now db after
  pending :
      {after : CreditDb} (tx : CreditTransaction) (u : Uuid)
      → insert_tx tx (get_or_create_wallet u now db).1 ≡ some after
      → tx.user_id ≡ u
      → tx.delta ≡ amount_of r
      → is_reserved tx.status ≡ true
      → IsReserve r
      → ltb_ℤ
          ((get_or_create_wallet u now db).0.balance
            +ℤ sum_reserved u (get_or_create_wallet u now db).1.txs)
          (neg tx.delta)
        ≡ false
      → Change r now db after
  settled_by :
      {after : CreditDb} (id : Uuid) (tx : CreditTransaction)
      → find_tx id db.txs ≡ some tx
      → is_reserved tx.status ≡ true
      → after
        ≡ add_to_wallet tx.user_id tx.delta now
            (get_or_create_wallet tx.user_id now
              (update_tx id (λ t. record t { status = committed; committed_at = some now }) db)).1
      → Change r now db after
  released_by :
      {after : CreditDb} (id : Uuid) (tx : CreditTransaction) (fresh : Uuid) (reason : TxReason)
      → find_tx id db.txs ≡ some tx
      → is_reserved tx.status ≡ true
      → insert_tx
          (compensation fresh reason now tx)
          (update_tx id (λ t. record t { status = released }) db)
        ≡ some after
      → Change r now db after

neg-neg : (a : ℤ) → neg (neg a) ≡ a
unfolding neg
neg-neg a = ground arith

module _ (now : ℕ) (db : CreditDb) where
  reserve-Change :
      (u : Uuid) (amount : ℤ) (kind ref : String) (key : Option String) (fresh : Uuid)
      → let r = reserve_req u amount kind ref key fresh in Change r now db (serve r now db)
  unfolding serve reserve_credits
  reserve-Change u amount kind ref key fresh =
      let tx : CreditTransaction = record {
        id = fresh;
        user_id = u;
        delta = neg amount;
        reason = reserve;
        reference_kind = kind;
        reference_id = ref;
        idempotency_key = key_or_default u ref key;
        status = reserved;
        committed_at = none;
      } in
      let created = get_or_create_wallet u now db in
      elim (Bool-cases (ltb_ℤ (created.0.balance +ℤ sum_reserved u created.1.txs) amount)) [
        | inl short ↦ unchanged (rw short)
        | inr enough ↦ elim (Option-cases (insert_tx tx created.1)) [
          | inl taken ↦ unchanged (rw (enough, taken))
          | inr (db', e) ↦
              pending tx u (rw (enough, e)) refl refl refl tt (rw (neg-neg amount) enough)
        ]
      ]

  commit-Change : (id : Uuid) → Change (commit_req id) now db (serve (commit_req id) now db)
  unfolding serve commit_reservation
  commit-Change id = elim (Option-cases (find_tx id db.txs)) [
    | inl missing ↦ unchanged (rw missing)
    | inr (tx, there) ↦ elim (Bool-cases (is_reserved tx.status)) [
      | inl held ↦ settled_by id tx there held (rw (there, held))
      | inr done ↦ unchanged (rw (there, done))
    ]
  ]

  release-Change :
      (id : Uuid) (reason : TxReason) (fresh : Uuid)
      → let r = release_req id reason fresh in Change r now db (serve r now db)
  unfolding serve release_reservation
  release-Change id reason fresh = elim (Option-cases (find_tx id db.txs)) [
    | inl missing ↦ unchanged (rw missing)
    | inr (tx, there) ↦ elim (Bool-cases (is_reserved tx.status)) [
      | inl held ↦
          elim (Option-cases (
            insert_tx (compensation fresh reason now tx)
              (update_tx id (λ t. record t { status = released }) db))) [
                | inl taken ↦ unchanged (rw (there, held, taken))
                | inr (db', e) ↦ released_by id tx fresh reason there held (rw (there, held, e))
              ]
      | inr done ↦ unchanged (rw (there, done))
    ]
  ]

  purchase-Change :
      (u : Uuid) (amount : ℤ) (kind ref key : String) (fresh : Uuid)
      → let r = purchase_req u amount kind ref key fresh in Change r now db (serve r now db)
  unfolding serve credit_purchase insert_tx
  purchase-Change u amount kind ref key fresh =
      let tx = grant_row u amount purchase kind ref key fresh now in
      elim (Option-cases (insert_tx tx (get_or_create_wallet u now db).1)) [
        | inl taken ↦ elim (Option-cases (find_key key db.txs)) [
          | inl missing ↦ unchanged (rw (taken, missing))
          | inr (t, there) ↦ unchanged (rw (taken, there))
        ]
        | inr (db', e) ↦ credited tx u e refl refl refl (λ h. h) (rw e)
      ]

  grant-Change :
      (u : Uuid) (amount : ℤ) (sub : Uuid) (day : String) (fresh : Uuid)
      → let r = grant_req u amount sub day fresh in Change r now db (serve r now db)
  unfolding serve grant_subscription_credits insert_tx
  grant-Change u amount sub day fresh =
      let key = str_append "grant:" (str_append (uuid_str sub) (str_append ":" day)) in
      let tx = grant_row u amount subscription_grant "subscription" (uuid_str sub) key fresh now in
      elim (Option-cases (insert_tx tx (get_or_create_wallet u now db).1)) [
        | inl taken ↦ unchanged (rw taken)
        | inr (db', e) ↦ credited tx u e refl refl refl (λ h. h) (rw e)
      ]

  adjust-Change :
      (u : Uuid) (delta : ℤ) (action : String) (fresh : Uuid)
      → let r = adjust_req u delta action fresh in Change r now db (serve r now db)
  unfolding serve admin_adjust_credits insert_tx
  adjust-Change u delta action fresh =
      let tx =
        grant_row u delta admin_grant "admin_action" action (str_append "admin:" action) fresh
          now in
      elim (Option-cases (insert_tx tx (get_or_create_wallet u now db).1)) [
        | inl taken ↦ unchanged (rw taken)
        | inr (db', e) ↦ credited tx u e refl refl refl (λ h. h) (rw e)
      ]

  pub serve-Change : (r : Request) → Change r now db (serve r now db)
  serve-Change (reserve_req u amount kind ref key fresh) =
      reserve-Change u amount kind ref key fresh
  serve-Change (commit_req id) = commit-Change id
  serve-Change (release_req id reason fresh) = release-Change id reason fresh
  serve-Change (purchase_req u amount kind ref key fresh) =
      purchase-Change u amount kind ref key fresh
  serve-Change (grant_req u amount sub day fresh) = grant-Change u amount sub day fresh
  serve-Change (adjust_req u delta action fresh) = adjust-Change u delta action fresh
