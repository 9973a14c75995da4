-- ===== src/Auth/Links.antt =====
-- The magic links of services/auth-svc: app/routers/email_verify.py, password_reset.py and the change of an
-- e-mail address of account.py. A SHA-256 digest is its number, and texts of tokens and codes are hashed by
-- a parameter; a missing token or code is the empty text. A request's transaction is that of `get_session`: an exception rolls it back.
pub mod Dead
pub mod Rows
pub mod SingleUse
use colab.Prelude.{
  ℕ, ◌+◌, ◌*◌, String, Bool, true, false, not, ◌&&◌, ◌||◌, Option, none, some, List, [], ◌∷◌, ◌==◌,
  ltb, str_eq, find, any, update_where, if◌then◌else◌,
}
use colab.Prelude.Uuid.{Uuid}
use colab.Auth.Links.Rows.{
  Purpose, email_verify, password_reset, email_change, MagicLink, Account, LinkDb, LinkEvent,
  email_verified, email_changed, LinkError, unauthorized, not_found, conflict, invalid,
  rate_limited, Answer, ok, raises,
}

-- What is new in a request: the time, the limiter's answer and the texts and id of a new link.
pub record LinkCall : Type 0 where
  pub now : ℕ
  pub within_limit : Bool
  pub fresh : Uuid
  pub token : String
  pub code : String

abbrev pub is_purpose : Purpose → Purpose → Bool
is_purpose email_verify email_verify = true
is_purpose password_reset password_reset = true
is_purpose email_change email_change = true
is_purpose _ _ = false

abbrev pub is_open : MagicLink → Bool
is_open l = elim l.consumed_at [ none ↦ true | some t ↦ false ]

abbrev pub consumed : ℕ → MagicLink → MagicLink
consumed now l = record l { consumed_at = some now }

abbrev pub find_account : Uuid → List Account → Option Account
find_account id = find (λ u. u.id == id)

abbrev pub has_email : String → Account → Bool
has_email e u = elim u.email [ none ↦ false | some e' ↦ str_eq e' e ]

-- `magic_link_expiry(15)`
abbrev link_expiry : ℕ → ℕ
link_expiry now = now + 15 * 60_000_000

abbrev pub get_session : {A : Type 0} → LinkDb → Answer A × LinkDb → Answer A × LinkDb
get_session db (ok a, after) = (ok a, after)
get_session db (raises e, after) = (raises e, db)

module _ (sha256 : String → ℕ) where
  -- The links of the user and the purpose that are open are consumed, and a new one is added.
  abbrev pub replace_link : Uuid → Purpose → Option String → LinkCall → LinkDb → LinkDb
  replace_link user purpose value call db =
      let l : MagicLink = record {
        id = call.fresh;
        user_id = user;
        purpose = purpose;
        token_hash = sha256 call.token;
        otp_hash = some (sha256 call.code);
        new_value = value;
        expires_at = link_expiry call.now;
        consumed_at = none;
      } in
      record db {
        links =
            l
            ∷ update_where (λ m. m.user_id == user && is_purpose purpose m.purpose && is_open m)
                (consumed call.now) db.links;
      }

  pub verify_start : String → LinkCall → LinkDb → Answer Unit × LinkDb
  verify_start email call db =
      if call.within_limit
      then elim (find (has_email email) db.accounts) [
        | none ↦ (ok tt, db)
        | some u ↦ elim u.email_verified_at [
          | some t ↦ (ok tt, db)
          | none ↦ (ok tt, replace_link u.id email_verify none call db)
        ]
      ]
      else (raises rate_limited, db)

  pub reset_start : String → LinkCall → LinkDb → Answer Unit × LinkDb
  reset_start email call db =
      if call.within_limit
      then elim (find (has_email email) db.accounts) [
        | none ↦ (ok tt, db)
        | some u ↦ (ok tt, replace_link u.id password_reset none call db)
      ]
      else (raises rate_limited, db)

  pub email_change_start : Uuid → String → LinkCall → LinkDb → Answer Unit × LinkDb
  email_change_start user new_email call db =
      if call.within_limit
      then (if any (has_email new_email) db.accounts
          then (raises conflict, db)
          else (ok tt, replace_link user email_change (some new_email) call db))
      else (raises rate_limited, db)

  abbrev pub by_token : ℕ → MagicLink → Bool
  by_token h l = l.token_hash == h && is_open l

  abbrev by_code : ℕ → MagicLink → Bool
  by_code h l = elim l.otp_hash [ none ↦ false | some o ↦ o == h ] && is_open l

  -- The test of a link for a token, or for a code where the token is empty.
  abbrev pub named_link : String → String → MagicLink → Bool
  named_link token code l =
      if str_eq token "" then by_code (sha256 code) l else by_token (sha256 token) l

  -- The row of the link, consumed, with what it changes of an account.
  abbrev pub spend : ℕ → MagicLink → (Account → Account) → LinkDb → LinkDb
  spend now l f db = record db {
    links = update_where (λ m. m.id == l.id) (consumed now) db.links;
    accounts = update_where (λ u. u.id == l.user_id) f db.accounts;
  }

  abbrev pub verify_found : ℕ → LinkDb → Option MagicLink → Answer Unit × LinkDb
  verify_found now db none = (raises unauthorized, db)
  verify_found now db (some l) =
      if ltb l.expires_at now
      then (raises unauthorized, db)
      else elim (find_account l.user_id db.accounts) [
        | none ↦ (raises not_found, spend now l (λ u. u) db)
        | some u ↦
            let after = spend now l (λ v. record v { email_verified_at = some now }) db in
            (ok tt, record after { outbox = email_verified u.id u.email ∷ db.outbox })
      ]

  pub verify_finish : String → String → ℕ → LinkDb → Answer Unit × LinkDb
  verify_finish token code now db = get_session db (
      if str_eq token "" && str_eq code ""
      then (raises invalid, db)
      else verify_found now db
          (find (λ l. named_link token code l && is_purpose email_verify l.purpose) db.links))

  -- `valid` is what the check of the new password says, and `new_hash` its hash.
  abbrev pub reset_found : ℕ → Bool → String → LinkDb → Option MagicLink → Answer Unit × LinkDb
  reset_found now valid new_hash db none = (raises unauthorized, db)
  reset_found now valid new_hash db (some l) =
      if ltb l.expires_at now
      then (raises unauthorized, db)
      else elim (find_account l.user_id db.accounts) [
        | none ↦ (raises unauthorized, db)
        | some u ↦
            if valid
            then (ok tt, spend now l (λ v. record v { password_hash = some new_hash }) db)
            else (raises invalid, db)
      ]

  unfoldable pub reset_finish : String → Bool → String → ℕ → LinkDb → Answer Unit × LinkDb
  reset_finish token valid new_hash now db = get_session db (
      reset_found now valid new_hash db
        (find (λ l. by_token (sha256 token) l && is_purpose password_reset l.purpose) db.links))

  -- SQLAlchemy writes a comparison with None as IS NULL.
  abbrev pub is_taken : Option String → List Account → Bool
  is_taken none accounts = any (λ u. elim u.email [ none ↦ true | some e ↦ false ]) accounts
  is_taken (some e) accounts = any (has_email e) accounts

  abbrev pub change_found : Uuid → ℕ → LinkDb → Option MagicLink → Answer Unit × LinkDb
  change_found user now db none = (raises unauthorized, db)
  change_found user now db (some l) =
      if ltb l.expires_at now
      then (raises unauthorized, db)
      else elim (find_account user db.accounts) [
        | none ↦ (raises unauthorized, db)
        | some u ↦
            if is_taken l.new_value db.accounts
            then (raises conflict, spend now l (λ v. v) db)
            else (let after =
                  spend now l (λ v. record v { email = l.new_value; email_verified_at = some now })
                    db in
                (ok tt, record after { outbox = email_changed user l.new_value ∷ db.outbox }))
      ]

  pub email_change_finish : Uuid → String → String → ℕ → LinkDb → Answer Unit × LinkDb
  email_change_finish user token code now db = get_session db (
      if str_eq token "" && str_eq code ""
      then (raises invalid, db)
      else change_found user now db (
          find
            (λ l. named_link token code l && is_purpose email_change l.purpose && l.user_id == user)
            db.links))
