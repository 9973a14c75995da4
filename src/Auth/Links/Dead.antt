-- ===== src/Auth/Links/Dead.antt =====
-- No endpoint opens a link under a digest that no new token has.
use colab.Prelude.{
  ℕ, String, Bool, true, false, ◌&&◌, Bool-cases, Option-cases, ◌≡◌, ◌≢◌, inl, inr, Option, none,
  some, List, [], ◌∷◌, ◌==◌, ltb, str_eq, find, any, All, arith,
}
use colab.Prelude.Uuid.{Uuid}
use colab.Auth.Sessions.Single.{off_update}
use colab.Auth.Links.Rows.{
  Purpose, email_verify, password_reset, email_change, MagicLink, Account, LinkDb, Answer, ok,
  raises,
}
use colab.Auth.Links.{
  LinkCall, is_purpose, is_open, consumed, find_account, get_session, replace_link, verify_start,
  reset_start, email_change_start, by_token, named_link, spend, verify_found, verify_finish,
  reset_found, reset_finish, is_taken, has_email, change_found, email_change_finish,
}

-- The endpoints that write links.
pub data Op : Type 0 where
  starting_verify starting_reset : String → LinkCall → Op
  starting_change : Uuid → String → LinkCall → Op
  finishing_verify : String → String → ℕ → Op
  finishing_reset : String → Bool → String → ℕ → Op
  finishing_change : Uuid → String → String → ℕ → Op

module _ (sha256 : String → ℕ) where
  pub apply : Op → LinkDb → LinkDb
  apply (starting_verify email call) db = (verify_start sha256 email call db).1
  apply (starting_reset email call) db = (reset_start sha256 email call db).1
  apply (starting_change user email call) db = (email_change_start sha256 user email call db).1
  apply (finishing_verify token code now) db = (verify_finish sha256 token code now db).1
  apply (finishing_reset token valid hash now) db = (reset_finish sha256 token valid hash now db).1
  apply (finishing_change user token code now) db =
      (email_change_finish sha256 user token code now db).1

  pub run : List Op → LinkDb → LinkDb
  run [] db = db
  run (op ∷ ops) db = run ops (apply op db)

  -- A new link's token does not have the digest `h`.
  abbrev pub IsFresh : ℕ → Op → Type 0
  IsFresh h (starting_verify email call) = sha256 call.token ≢ h
  IsFresh h (starting_reset email call) = sha256 call.token ≢ h
  IsFresh h (starting_change user email call) = sha256 call.token ≢ h
  IsFresh h _ = Unit

  abbrev pub IsDead : ℕ → LinkDb → Type 0
  IsDead h db = any (by_token sha256 h) db.links ≡ false

  pub consumed_off : (h now : ℕ) (l : MagicLink) → by_token sha256 h (consumed now l) ≡ false
  consumed_off h now l = ground arith

  other_token : (a h : ℕ) → a ≢ h → (a == h && true) ≡ false
  other_token a h n = ground (arith, n)

  replace-IsDead :
      (h : ℕ) (user : Uuid) (purpose : Purpose) (value : Option String) (call : LinkCall)
      (db : LinkDb)
      → sha256 call.token ≢ h
      → IsDead h db
      → IsDead h (replace_link sha256 user purpose value call db)
  replace-IsDead h user purpose value call db n d = rw (other_token (sha256 call.token) h n) (
      off_update (by_token sha256 h)
        (λ m. m.user_id == user && is_purpose purpose m.purpose && is_open m) (consumed call.now)
        db.links (λ x _. consumed_off h call.now x) d)

  pub spend-IsDead :
      (h now : ℕ) (l : MagicLink) (f : Account → Account) (db : LinkDb)
      → IsDead h db
      → IsDead h (spend sha256 now l f db)
  spend-IsDead h now l f db d =
      off_update (by_token sha256 h) (λ m. m.id == l.id) (consumed now) db.links
        (λ x _. consumed_off h now x) d

  session-IsDead :
      {A : Type 0} (h : ℕ) (db : LinkDb) (r : Answer A × LinkDb)
      → IsDead h db
      → IsDead h r.1
      → IsDead h (get_session db r).1
  session-IsDead h db (ok a, after) d d' = d'
  session-IsDead h db (raises e, after) d d' = d

  reset_found-IsDead :
      (h now : ℕ) (valid : Bool) (hash : String) (db : LinkDb) (o : Option MagicLink)
      → IsDead h db
      → IsDead h (reset_found sha256 now valid hash db o).1
  reset_found-IsDead h now valid hash db none d = d
  reset_found-IsDead h now valid hash db (some l) d = elim (Bool-cases (ltb l.expires_at now)) [
    | inl late ↦ rw (late, reset_found) d
    | inr fine ↦ elim (Option-cases (find_account l.user_id db.accounts)) [
      | inl gone ↦ rw (fine, gone, reset_found) d
      | inr (u, found) ↦ elim (Bool-cases valid) [
        | inl strong ↦ rw (fine, found, strong, reset_found) (spend-IsDead h now l (λ v. v) db d)
        | inr weak ↦ rw (fine, found, weak, reset_found) d
      ]
    ]
  ]

  verify_found-IsDead :
      (h now : ℕ) (db : LinkDb) (o : Option MagicLink)
      → IsDead h db
      → IsDead h (verify_found sha256 now db o).1
  verify_found-IsDead h now db none d = d
  verify_found-IsDead h now db (some l) d = elim (Bool-cases (ltb l.expires_at now)) [
    | inl late ↦ rw (late, verify_found) d
    | inr fine ↦ elim (Option-cases (find_account l.user_id db.accounts)) [
      | inl gone ↦ rw (fine, gone, verify_found) (spend-IsDead h now l (λ v. v) db d)
      | inr (u, found) ↦ rw (fine, found, verify_found) (spend-IsDead h now l (λ v. v) db d)
    ]
  ]

  change_found-IsDead :
      (h : ℕ) (user : Uuid) (now : ℕ) (db : LinkDb) (o : Option MagicLink)
      → IsDead h db
      → IsDead h (change_found sha256 user now db o).1
  change_found-IsDead h user now db none d = d
  change_found-IsDead h user now db (some l) d = elim (Bool-cases (ltb l.expires_at now)) [
    | inl late ↦ rw (late, change_found) d
    | inr fine ↦ elim (Option-cases (find_account user db.accounts)) [
      | inl gone ↦ rw (fine, gone, change_found) d
      | inr (u, found) ↦ elim (Bool-cases (is_taken sha256 l.new_value db.accounts)) [
        | inl taken ↦ rw (fine, found, taken, change_found) (spend-IsDead h now l (λ v. v) db d)
        | inr free ↦ rw (fine, found, free, change_found) (spend-IsDead h now l (λ v. v) db d)
      ]
    ]
  ]

  verify_start-IsDead :
      (h : ℕ) (email : String) (call : LinkCall) (db : LinkDb)
      → sha256 call.token ≢ h
      → IsDead h db
      → IsDead h (verify_start sha256 email call db).1
  unfolding verify_start
  verify_start-IsDead h email call db n d = elim (Bool-cases call.within_limit) [
    | inr over ↦ rw over d
    | inl within ↦ elim (Option-cases (find (has_email email) db.accounts)) [
      | inl nobody ↦ rw (within, nobody) d
      | inr (u, found) ↦ elim (Option-cases u.email_verified_at) [
        | inl pending ↦
            rw (within, found, pending) (replace-IsDead h u.id email_verify none call db n d)
        | inr (t, verified) ↦ rw (within, found, verified) d
      ]
    ]
  ]

  reset_start-IsDead :
      (h : ℕ) (email : String) (call : LinkCall) (db : LinkDb)
      → sha256 call.token ≢ h
      → IsDead h db
      → IsDead h (reset_start sha256 email call db).1
  unfolding reset_start
  reset_start-IsDead h email call db n d = elim (Bool-cases call.within_limit) [
    | inr over ↦ rw over d
    | inl within ↦ elim (Option-cases (find (has_email email) db.accounts)) [
      | inl nobody ↦ rw (within, nobody) d
      | inr (u, found) ↦ rw (within, found) (replace-IsDead h u.id password_reset none call db n d)
    ]
  ]

  change_start-IsDead :
      (h : ℕ) (user : Uuid) (email : String) (call : LinkCall) (db : LinkDb)
      → sha256 call.token ≢ h
      → IsDead h db
      → IsDead h (email_change_start sha256 user email call db).1
  unfolding email_change_start
  change_start-IsDead h user email call db n d = elim (Bool-cases call.within_limit) [
    | inr over ↦ rw over d
    | inl within ↦ elim (Bool-cases (any (has_email email) db.accounts)) [
      | inl taken ↦ rw (within, taken) d
      | inr free ↦ rw (within, free) (replace-IsDead h user email_change (some email) call db n d)
    ]
  ]

  verify_finish-IsDead :
      (h : ℕ) (token code : String) (now : ℕ) (db : LinkDb)
      → IsDead h db
      → IsDead h (verify_finish sha256 token code now db).1
  unfolding verify_finish
  verify_finish-IsDead h token code now db d =
      let o =
        find (λ l. named_link sha256 token code l && is_purpose email_verify l.purpose) db.links in
      elim (Bool-cases (str_eq token "" && str_eq code "")) [
        | inl empty ↦ rw (empty, get_session) d
        | inr given ↦ rw given (
            session-IsDead h db (verify_found sha256 now db o) d (verify_found-IsDead h now db o d))
      ]

  change_finish-IsDead :
      (h : ℕ) (user : Uuid) (token code : String) (now : ℕ) (db : LinkDb)
      → IsDead h db
      → IsDead h (email_change_finish sha256 user token code now db).1
  unfolding email_change_finish
  change_finish-IsDead h user token code now db d =
      let o =
        find
          (λ l.
            named_link sha256 token code l
            && is_purpose email_change l.purpose
            && l.user_id == user)
          db.links in
      elim (Bool-cases (str_eq token "" && str_eq code "")) [
        | inl empty ↦ rw (empty, get_session) d
        | inr given ↦ rw given (
            session-IsDead h db (change_found sha256 user now db o) d
              (change_found-IsDead h user now db o d))
      ]

  reset_finish-IsDead :
      (h : ℕ) (token : String) (valid : Bool) (hash : String) (now : ℕ) (db : LinkDb)
      → IsDead h db
      → IsDead h (reset_finish sha256 token valid hash now db).1
  unfolding reset_finish
  reset_finish-IsDead h token valid hash now db d =
      let o =
        find (λ l. by_token sha256 (sha256 token) l && is_purpose password_reset l.purpose)
          db.links in
      session-IsDead h db (reset_found sha256 now valid hash db o) d
        (reset_found-IsDead h now valid hash db o d)

  apply-IsDead :
      (h : ℕ) (op : Op) (db : LinkDb) → IsFresh h op → IsDead h db → IsDead h (apply op db)
  unfolding apply
  apply-IsDead h (starting_verify email call) db n d = verify_start-IsDead h email call db n d
  apply-IsDead h (starting_reset email call) db n d = reset_start-IsDead h email call db n d
  apply-IsDead h (starting_change user email call) db n d =
      change_start-IsDead h user email call db n d
  apply-IsDead h (finishing_verify token code now) db n d =
      verify_finish-IsDead h token code now db d
  apply-IsDead h (finishing_reset token valid hash now) db n d =
      reset_finish-IsDead h token valid hash now db d
  apply-IsDead h (finishing_change user token code now) db n d =
      change_finish-IsDead h user token code now db d

  pub run-IsDead :
      (h : ℕ) (ops : List Op) (db : LinkDb)
      → All (IsFresh h) ops
      → IsDead h db
      → IsDead h (run ops db)
  unfolding run
  run-IsDead h [] db fresh d = d
  run-IsDead h (op ∷ ops) db fresh d =
      run-IsDead h ops (apply op db) fresh.1 (apply-IsDead h op db fresh.0 d)
