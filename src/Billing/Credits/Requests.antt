-- ===== src/Billing/Credits/Requests.antt =====
-- What reaches the wallet: the endpoints of app/routers/internal.py and app/routers/admin.py and
-- the two calls of the webhook handlers, each one transaction that is committed, or rolled back
-- when the call raises.
use colab.Prelude.{ℕ, String, Option, none, some, List, [], ◌∷◌, str_eq, if◌then◌else◌}
use colab.Prelude.Int.{ℤ}
use colab.Prelude.Uuid.{Uuid, uuid_str}
use Prim.Native.String.{◌++◌ as str_append}
use colab.Billing.Credits.{
  Result, ok, err, insufficient, reserve_credits, commit_reservation, release_reservation,
  credit_purchase, grant_subscription_credits, admin_adjust_credits,
}
use colab.Billing.Credits.Rows.{CreditDb, Session, TxReason, begin}

pub data Request : Type 0 where
  reserve_req : Uuid → ℤ → String → String → Option String → Uuid → Request
  commit_req : Uuid → Request
  release_req : Uuid → TxReason → Uuid → Request
  purchase_req : Uuid → ℤ → String → String → String → Uuid → Request
  grant_req : Uuid → ℤ → Uuid → String → Uuid → Request
  adjust_req : Uuid → ℤ → String → Uuid → Request

-- `db.commit()` after a call that returned, the rollback of `session.begin()` after one that raised.
abbrev pub close : {A : Type 0} → Result A × Session → CreditDb
close (ok _, s) = s.work
close (err _, s) = s.base

-- `body.idempotency_key or f"reserve:{body.user_id}:{body.reference_id}"`
abbrev default_key : Uuid → String → String
default_key u ref = str_append "reserve:" (str_append (uuid_str u) (str_append ":" ref))

abbrev pub key_or_default : Uuid → String → Option String → String
key_or_default u ref none = default_key u ref
key_or_default u ref (some k) = if str_eq k "" then default_key u ref else k

pub data ReserveResponse : Type 0 where
  reservation : Uuid → ReserveResponse
  payment_required : ℤ → ℤ → ReserveResponse
  server_error : ReserveResponse

abbrev response : Result Uuid → ReserveResponse
response (ok id) = reservation id
response (err (insufficient available requested)) = payment_required available requested
response (err _) = server_error

-- `reserve_credits_endpoint`
unfoldable pub reserve_credits_endpoint :
    Uuid → ℤ → String → String → Option String → Uuid → ℕ → CreditDb → ReserveResponse × CreditDb
reserve_credits_endpoint u amount kind ref key fresh now db =
    let (r, s) =
      reserve_credits u amount kind ref (key_or_default u ref key) fresh now (begin db) in
    (response r, close (r, s))

-- `commit_credits_endpoint`
unfoldable pub commit_credits_endpoint : Uuid → ℕ → CreditDb → CreditDb
commit_credits_endpoint id now db = (commit_reservation id now (begin db)).work

-- `release_credits_endpoint`
unfoldable pub release_credits_endpoint : Uuid → TxReason → Uuid → ℕ → CreditDb → CreditDb
release_credits_endpoint id reason fresh now db =
    close (release_reservation id reason fresh now (begin db))

unfoldable pub serve : Request → ℕ → CreditDb → CreditDb
unfolding reserve_credits_endpoint commit_credits_endpoint release_credits_endpoint
serve (reserve_req u amount kind ref key fresh) now db =
    (reserve_credits_endpoint u amount kind ref key fresh now db).1
serve (commit_req id) now db = commit_credits_endpoint id now db
serve (release_req id reason fresh) now db = release_credits_endpoint id reason fresh now db
serve (purchase_req u amount kind ref key fresh) now db =
    close (credit_purchase u amount kind ref key fresh now (begin db))
serve (grant_req u amount sub day fresh) now db =
    (grant_subscription_credits u amount sub day fresh now (begin db)).1.work
serve (adjust_req u delta action fresh) now db =
    close (admin_adjust_credits u delta action fresh now (begin db))

-- A day of requests, one after the other.
unfoldable pub run : List (Request × ℕ) → CreditDb → CreditDb
run [] db = db
run ((r, now) ∷ rest) db = run rest (serve r now db)

abbrev pub empty : CreditDb
empty = record { wallets = []; txs = [] }
