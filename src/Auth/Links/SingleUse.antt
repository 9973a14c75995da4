-- ===== src/Auth/Links/SingleUse.antt =====
-- A magic link is used at most once.
use colab.Prelude.{
  ℕ, ◌≤◌, String, Bool, true, ◌&&◌, Bool-cases, Option-cases, ◌≡◌, refl, inl, inr, some, List, ◌==◌,
  ==_refl, ltb, find, find-holds, length, select, All, arith,
}
use colab.Auth.Sessions.Single.{off_find, off_only, narrower, find-wider, find-narrower}
use colab.Auth.Links.Rows.{
  password_reset, MagicLink, Account, LinkDb, LinkError, unauthorized, ok, raises,
}
use colab.Auth.Links.{
  is_purpose, consumed, find_account, get_session, by_token, spend, reset_found, reset_finish,
}
use colab.Auth.Links.Dead.{Op, run, IsFresh, IsDead, consumed_off, run-IsDead}

module _ (sha256 : String → ℕ) where
  -- The test of a link for a password reset.
  abbrev resets : ℕ → MagicLink → Bool
  resets h l = by_token sha256 h l && is_purpose password_reset l.purpose

  resets-by_token : (h : ℕ) (l : MagicLink) → resets h l ≡ true → by_token sha256 h l ≡ true
  resets-by_token h l e = ground (arith, e)

  by_token_hash : (h : ℕ) (l : MagicLink) → by_token sha256 h l ≡ true → (l.token_hash == h) ≡ true
  by_token_hash h l e = ground (arith, e)

  dead_refused :
      (token : String) (valid : Bool) (hash : String) (now : ℕ) (db : LinkDb)
      → IsDead sha256 (sha256 token) db
      → (reset_finish sha256 token valid hash now db).0 ≡ raises unauthorized
  unfolding reset_finish
  dead_refused token valid hash now db d =
      rw
        (
          off_find (resets (sha256 token)) db.links (
              narrower (resets (sha256 token)) (by_token sha256 (sha256 token)) db.links
                (resets-by_token (sha256 token)) d),
          reset_found,
          get_session,
        )
        refl

  raised : {A : Type 0} {e : LinkError} {a : A} → raises e ≡ ok a → ⊥
  raised e = cc

  find-token :
      (h : ℕ) (ms : List MagicLink) {l : MagicLink}
      → length (select (λ m. m.token_hash == h) ms) ≤ 1
      → find (resets h) ms ≡ some l
      → find (by_token sha256 h) ms ≡ some l
  find-token h ms {l} one found =
      let w : MagicLink → Bool = λ m. m.token_hash == h in
      find-narrower (by_token sha256 h) w ms (by_token_hash h)
        (find-wider (resets h) w ms (λ m e. by_token_hash h m (resets-by_token h m e)) one found)
        (resets-by_token h l (find-holds (resets h) ms found))

  spent-IsDead :
      (h now : ℕ) (f : Account → Account) (db : LinkDb) {l : MagicLink}
      → length (select (λ m. m.token_hash == h) db.links) ≤ 1
      → find (resets h) db.links ≡ some l
      → IsDead sha256 h (spend sha256 now l f db)
  spent-IsDead h now f db {l} one found =
      off_only (by_token sha256 h) (λ m. m.token_hash == h) (λ m. m.id == l.id) (consumed now)
        db.links (by_token_hash h) (λ x. consumed_off sha256 h now x) (==_refl l.id) one
        (find-token h db.links one found)

  reset_ok-IsDead :
      (token hash : String) (valid : Bool) (now : ℕ) (db : LinkDb)
      → (reset_finish sha256 token valid hash now db).0 ≡ ok tt
      → length (select (λ m. m.token_hash == sha256 token) db.links) ≤ 1
      → IsDead sha256 (sha256 token) (reset_finish sha256 token valid hash now db).1
  unfolding reset_finish
  reset_ok-IsDead token hash valid now db e one =
      elim (Option-cases (find (resets (sha256 token)) db.links)) [
        | inl missing ↦ absurd (raised (rw (missing, reset_found, get_session) at e))
        | inr (l, found) ↦ elim (Bool-cases (ltb l.expires_at now)) [
          | inl late ↦ absurd (raised (rw (found, late, reset_found, get_session) at e))
          | inr fine ↦ elim (Option-cases (find_account l.user_id db.accounts)) [
            | inl gone ↦ absurd (raised (rw (found, fine, gone, reset_found, get_session) at e))
            | inr (u, known) ↦ elim (Bool-cases valid) [
              | inr weak ↦
                  absurd (raised (rw (found, fine, known, weak, reset_found, get_session) at e))
              | inl strong ↦
                  rw (found, fine, known, strong, reset_found, get_session)
                    (spent-IsDead (sha256 token) now (λ v. v) db one found)
            ]
          ]
        ]
      ]

  -- A link that reset a password does so never again, whatever requests to the endpoints follow, where the digest of
  -- its token stands in one row at most and is not that of a new link's token.
  pub reset_finish-used :
      (token hash : String) (valid : Bool) (now : ℕ) (db : LinkDb) (ops : List Op) (valid' : Bool)
      (hash' : String) (later : ℕ)
      → (reset_finish sha256 token valid hash now db).0 ≡ ok tt
      → length (select (λ l. l.token_hash == sha256 token) db.links) ≤ 1
      → All (IsFresh sha256 (sha256 token)) ops
      → (reset_finish sha256 token valid' hash' later
          (run sha256 ops (reset_finish sha256 token valid hash now db).1)).0
        ≡ raises unauthorized
  reset_finish-used token hash valid now db ops valid' hash' later e one fresh =
      let after : LinkDb = (reset_finish sha256 token valid hash now db).1 in
      dead_refused token valid' hash' later (run sha256 ops after) (
        run-IsDead sha256 (sha256 token) ops after fresh
          (reset_ok-IsDead token hash valid now db e one))
