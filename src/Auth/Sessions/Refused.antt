-- ===== src/Auth/Sessions/Refused.antt =====
-- A refresh token that was used or logged out is never accepted again.
use colab.Prelude.{
  find-holds, ℕ, ◌≤◌, String, Bool, true, false, Bool-cases, Option-cases, ◌≡◌, refl, inl, inr,
  Option, none, some, List, ◌==◌, ==_refl, find, any, length, select, All, if◌then◌else◌, arith,
}
use colab.Auth.Sessions.Rows.{
  Claims, Jwt, User, Session, AuthState, TokenPair, AuthError, unauthorized, rate_limited, Answer,
  ok, raises,
}
use colab.Auth.Sessions.{
  Request, JwtSettings, decode_refresh_token, has_hash, is_live, revoked, rotated, refresh_for,
  refresh_decoded, refresh_token, logout_decoded, logout, is_jti_revoked, get_session,
}
use colab.Auth.Sessions.Single.{off_find, off_only, only_off, find-narrower, missing_off}
use colab.Auth.Sessions.Dead.{
  Op, run, IsFreshId, IsFresh, IsDead, run-IsDead, revoked_off, rotated_off,
}

module _ (jwt : Jwt) (settings : JwtSettings) where
  abbrev pub IsRefused : String → Request → AuthState → Type 0
  IsRefused token req st =
      (e : AuthError) × ((refresh_token jwt settings token req st).0 ≡ raises e)

  decoded_refused :
      (token : String) (req : Request) (st : AuthState) (a : Answer Claims)
      → any (has_hash (jwt.sha256 token)) st.db.sessions ≡ false
      → (e : AuthError) × ((get_session st (refresh_decoded jwt settings token req st a)).0
          ≡ raises e)
  decoded_refused token req st (raises e) d = (e, refl)
  decoded_refused token req st (ok c) d = elim (Bool-cases (is_jti_revoked c.jti req.now st)) [
    | inl used ↦ (unauthorized, rw (used, refresh_decoded) refl)
    | inr new ↦
        let missing = off_find (has_hash (jwt.sha256 token)) st.db.sessions d in
        (unauthorized, rw (new, missing, refresh_decoded) refl)
  ]

  dead-IsRefused :
      (token : String) (req : Request) (st : AuthState)
      → any (has_hash (jwt.sha256 token)) st.db.sessions ≡ false
      → IsRefused token req st
  unfolding refresh_token
  dead-IsRefused token req st d = limited req.within_limit
    where
      limited :
          (b : Bool)
          → (e : AuthError) × ((get_session st (
                if b
                then refresh_decoded jwt settings token req st
                    (decode_refresh_token jwt token req.now)
                else (raises rate_limited, st))).0
              ≡ raises e)
      limited true = decoded_refused token req st (decode_refresh_token jwt token req.now) d
      limited false = (rate_limited, refl)

  not_ok : {A B : Type 0} {e : AuthError} {a : A} → raises e ≡ ok a → B
  not_ok h = absurd cc

  live_hash : (h : ℕ) (s : Session) → has_hash h s ≡ true → s.refresh_token_hash == h ≡ true
  live_hash h s e = ground (arith, e)

  is_off : (h : ℕ) (s : Session) → is_live s ≡ false → has_hash h s ≡ false
  is_off h s e = ground (arith, e)

  is_of :
      (h : ℕ) (s : Session) (xs : List Session)
      → is_live s ≡ true
      → find (λ r. r.refresh_token_hash == h) xs ≡ some s
      → has_hash h s ≡ true
  is_of h s xs live found =
      let mine = find-holds (λ r. r.refresh_token_hash == h) xs found in ground (arith, live, mine)

  module _ (token : String) (st : AuthState) where
    abbrev IsOne : Type 0
    IsOne = length (select (λ s. s.refresh_token_hash == jwt.sha256 token) st.db.sessions) ≤ 1

    for_used :
        (c : Claims) (req : Request) (s : Session) (u : Option User) {pair : TokenPair}
        → IsOne
        → IsFreshId jwt settings (jwt.sha256 token) req.refresh_jti
        → find (has_hash (jwt.sha256 token)) st.db.sessions ≡ some s
        → (get_session st (refresh_for jwt settings c req st s u)).0 ≡ ok pair
        → IsDead jwt settings
            (jwt.sha256 token)
            (get_session st (refresh_for jwt settings c req st s u)).1
    for_used c req s none one new found e = not_ok e
    for_used c req s (some u) one new found e = elim (Bool-cases u.is_active) [
      | inl on ↦ rw on (
          off_only (has_hash (jwt.sha256 token)) (λ r. r.refresh_token_hash == jwt.sha256 token)
            (λ r. r.id == s.id) (rotated jwt settings c.sub c.sid req) st.db.sessions
            (live_hash (jwt.sha256 token))
            (λ x. rotated_off jwt settings (jwt.sha256 token) c req x new) (==_refl s.id) one found)
      | inr off ↦ not_ok (rw off at e)
    ]

    decoded_used :
        (req : Request) (a : Answer Claims) {pair : TokenPair}
        → IsOne
        → IsFreshId jwt settings (jwt.sha256 token) req.refresh_jti
        → (get_session st (refresh_decoded jwt settings token req st a)).0 ≡ ok pair
        → IsDead jwt settings
            (jwt.sha256 token)
            (get_session st (refresh_decoded jwt settings token req st a)).1
    decoded_used req (raises e') one new e = not_ok e
    decoded_used req (ok c) one new e = elim (Bool-cases (is_jti_revoked c.jti req.now st)) [
      | inl used ↦ not_ok (rw (used, refresh_decoded) at e)
      | inr fine ↦ elim (Option-cases (find (has_hash (jwt.sha256 token)) st.db.sessions)) [
        | inl missing ↦ not_ok (rw (fine, missing, refresh_decoded) at e)
        | inr (s, found) ↦
            rw (fine, found, refresh_decoded)
              (for_used c req s (find (λ u. u.id == c.sub) st.db.users) one new found
                (rw (fine, found, refresh_decoded) at e))
      ]
    ]

    used-IsDead :
        (req : Request) {pair : TokenPair}
        → IsOne
        → IsFreshId jwt settings (jwt.sha256 token) req.refresh_jti
        → (refresh_token jwt settings token req st).0 ≡ ok pair
        → IsDead jwt settings (jwt.sha256 token) (refresh_token jwt settings token req st).1
    unfolding refresh_token
    used-IsDead req one new e = elim (Bool-cases req.within_limit) [
      | inl within ↦
          rw within
            (decoded_used req (decode_refresh_token jwt token req.now) one new (rw within at e))
      | inr over ↦ not_ok (rw over at e)
    ]

    logged_out-IsDead :
        (now : ℕ) {c : Claims}
        → decode_refresh_token jwt token now ≡ ok c
        → IsOne
        → IsDead jwt settings (jwt.sha256 token) (logout jwt token now st)
    unfolding logout
    logged_out-IsDead now {c} valid one =
        let h = jwt.sha256 token in
        let w : Session → Bool = λ s. s.refresh_token_hash == h in
        elim (Option-cases (find w st.db.sessions)) [
          | inl missing ↦
              rw (valid, missing, logout_decoded)
                (missing_off (has_hash h) w st.db.sessions (live_hash h) missing)
          | inr (s, found) ↦ elim (Bool-cases (is_live s)) [
            | inl live ↦
                rw (valid, found, live, logout_decoded)
                  (off_only (has_hash h) w (λ r. r.id == s.id) (revoked now) st.db.sessions
                    (live_hash h) (λ x. revoked_off jwt settings h now x) (==_refl s.id) one
                    (find-narrower (has_hash h) w st.db.sessions (live_hash h) found
                      (is_of h s st.db.sessions live found)))
            | inr gone ↦
                rw (valid, found, gone, logout_decoded)
                  (only_off (has_hash h) w st.db.sessions (live_hash h) one found (is_off h s gone))
          ]
        ]

  -- A refresh token that was used is refused ever after, whatever requests follow, where the digest
  -- of the token stands in one row at most and no new token has that digest.
  pub refresh_token-used :
      (token : String) (req : Request) (st : AuthState) {pair : TokenPair} (ops : List Op)
      (later : Request)
      → (refresh_token jwt settings token req st).0 ≡ ok pair
      → length (select (λ s. s.refresh_token_hash == jwt.sha256 token) st.db.sessions) ≤ 1
      → IsFreshId jwt settings (jwt.sha256 token) req.refresh_jti
      → All (IsFresh jwt settings (jwt.sha256 token)) ops
      → IsRefused token later (run jwt settings ops (refresh_token jwt settings token req st).1)
  refresh_token-used token req st ops later e one new fresh =
      dead-IsRefused token later (run jwt settings ops (refresh_token jwt settings token req st).1)
        (run-IsDead jwt settings (jwt.sha256 token) ops (refresh_token jwt settings token req st).1
          fresh (used-IsDead token st req one new e))

  -- A refresh token that was logged out while it was valid is refused ever after, under the same conditions
  -- on its digest.
  pub refresh_token-logged_out :
      (token : String) (now : ℕ) (st : AuthState) {c : Claims} (ops : List Op) (later : Request)
      → decode_refresh_token jwt token now ≡ ok c
      → length (select (λ s. s.refresh_token_hash == jwt.sha256 token) st.db.sessions) ≤ 1
      → All (IsFresh jwt settings (jwt.sha256 token)) ops
      → IsRefused token later (run jwt settings ops (logout jwt token now st))
  refresh_token-logged_out token now st ops later valid one fresh =
      dead-IsRefused token later (run jwt settings ops (logout jwt token now st)) (
        run-IsDead jwt settings (jwt.sha256 token) ops (logout jwt token now st) fresh
          (logged_out-IsDead token st now valid one))
