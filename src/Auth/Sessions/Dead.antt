-- ===== src/Auth/Sessions/Dead.antt =====
-- No endpoint makes a session live under a digest that no new token has.
use colab.Prelude.{
  ℕ, String, Bool, true, false, ◌&&◌, ◌||◌, Bool-cases, Option-cases, ◌≡◌, ◌≢◌, refl, sym, subst,
  inl, inr, Option, none, some, List, [], ◌∷◌, ◌==◌, find, any, select, update_where, All, arith,
}
use colab.Prelude.Uuid.{Uuid}
use colab.Auth.Sessions.Rows.{
  Claims, Jwt, User, Session, all_revoked, AuthState, Answer, ok, raises,
}
use colab.Auth.Sessions.{
  Request, JwtSettings, decode_refresh_token, mint_refresh_token, has_hash, is_live, revoked,
  rotated, refresh_for, refresh_session, refresh_decoded, refresh_token, issue_token_pair,
  logout_session, logout_decoded, logout, logout_all, revoke_session, is_jti_revoked, mark_all,
  is_live_of, mark_session_revoked, get_session,
}
use colab.Auth.Sessions.Single.{off_update}

-- The endpoints that write sessions.
pub data Op : Type 0 where
  refreshing : String → Request → Op
  logging_in : User → Uuid → Option String → Option String → Request → Op
  logging_out : String → ℕ → Op
  logging_out_all : Uuid → ℕ → Op
  revoking : Uuid → Uuid → ℕ → Op

module _ (jwt : Jwt) (settings : JwtSettings) where
  unfoldable pub apply : Op → AuthState → AuthState
  apply (refreshing token req) st = (refresh_token jwt settings token req st).1
  apply (logging_in u sid ip user_agent req) st =
      (issue_token_pair jwt settings u sid ip user_agent req st).1
  apply (logging_out token now) st = logout jwt token now st
  apply (logging_out_all user now) st = logout_all user now st
  apply (revoking sid user now) st = (revoke_session sid user now st).1

  unfoldable pub run : List Op → AuthState → AuthState
  run [] st = st
  run (op ∷ ops) st = run ops (apply op st)

  -- A token with that new id does not have the digest `h`: UUIDs do not repeat, and SHA-256 has no
  -- collision between the service's tokens.
  abbrev pub IsFreshId : ℕ → Uuid → Type 0
  IsFreshId h jti = (c : Claims) → c.jti ≡ jti → jwt.sha256 (jwt.encode c) ≢ h

  abbrev pub IsFresh : ℕ → Op → Type 0
  IsFresh h (refreshing token req) = IsFreshId h req.refresh_jti
  IsFresh h (logging_in u sid ip user_agent req) = IsFreshId h req.refresh_jti
  IsFresh h _ = Unit

  abbrev pub IsDead : ℕ → AuthState → Type 0
  IsDead h st = any (has_hash h) st.db.sessions ≡ false

  -- A change of a row that does not make it live under the digest.
  pub revoked_off : (h now : ℕ) (x : Session) → has_hash h (revoked now x) ≡ false
  revoked_off h now x = ground arith

  pub rotated_off :
      (h : ℕ) (c : Claims) (req : Request) (x : Session)
      → IsFreshId h req.refresh_jti
      → has_hash h (rotated jwt settings c.sub c.sid req x) ≡ false
  rotated_off h c req x fresh = other_hash (fresh _ refl)
    where
      other_hash : {a : ℕ} → a ≢ h → a == h && is_live x ≡ false
      other_hash n = ground (arith, n)

  for-IsDead :
      (h : ℕ) (c : Claims) (req : Request) (st : AuthState) (s : Session) (u : Option User)
      → IsFreshId h req.refresh_jti
      → IsDead h st
      → IsDead h (refresh_for jwt settings c req st s u).1
  for-IsDead h c req st s none fresh d = d
  for-IsDead h c req st s (some u) fresh d = elim (Bool-cases u.is_active) [
    | inl on ↦ rw on (
        off_update (has_hash h) (λ r. r.id == s.id) (rotated jwt settings c.sub c.sid req)
          st.db.sessions (λ x _. rotated_off h c req x fresh) d)
    | inr off ↦ rw off d
  ]

  session-IsDead :
      (h : ℕ) (c : Claims) (req : Request) (st : AuthState) (s : Option Session)
      → IsFreshId h req.refresh_jti
      → IsDead h st
      → IsDead h (refresh_session jwt settings c req st s).1
  session-IsDead h c req st none fresh d = d
  session-IsDead h c req st (some s) fresh d =
      for-IsDead h c req st s (find (λ u. u.id == c.sub) st.db.users) fresh d

  decoded-IsDead :
      (h : ℕ) (token : String) (req : Request) (st : AuthState) (a : Answer Claims)
      → IsFreshId h req.refresh_jti
      → IsDead h st
      → IsDead h (refresh_decoded jwt settings token req st a).1
  decoded-IsDead h token req st (raises e) fresh d = d
  decoded-IsDead h token req st (ok c) fresh d =
      elim (Bool-cases (is_jti_revoked c.jti req.now st)) [
        | inl used ↦
            rw (used, refresh_decoded)
              (off_update (has_hash h) (λ s. s.id == c.sid) (revoked req.now) st.db.sessions
                (λ x _. revoked_off h req.now x) d)
        | inr new ↦
            rw (new, refresh_decoded)
              (session-IsDead h c req st (find (has_hash (jwt.sha256 token)) st.db.sessions) fresh
                d)
      ]

  rolled_back :
      {A : Type 0} (h : ℕ) (st : AuthState) (r : Answer A × AuthState)
      → IsDead h st
      → IsDead h r.1
      → IsDead h (get_session st r).1
  rolled_back h st (ok a, after) d d' = d'
  rolled_back h st (raises e, after) d d' = d

  revoked-IsDead :
      (h now : ℕ) (p : Session → Bool) (st : AuthState)
      → IsDead h st
      → any (has_hash h) (update_where p (revoked now) st.db.sessions) ≡ false
  revoked-IsDead h now p st d =
      off_update (has_hash h) p (revoked now) st.db.sessions (λ x _. revoked_off h now x) d

  refresh-IsDead :
      (h : ℕ) (token : String) (req : Request) (st : AuthState)
      → IsFreshId h req.refresh_jti
      → IsDead h st
      → IsDead h (refresh_token jwt settings token req st).1
  unfolding refresh_token
  refresh-IsDead h token req st fresh d = elim (Bool-cases req.within_limit) [
    | inl within ↦ rw within (
        rolled_back h st
          (refresh_decoded jwt settings token req st (decode_refresh_token jwt token req.now)) d
          (decoded-IsDead h token req st (decode_refresh_token jwt token req.now) fresh d))
    | inr over ↦ rw over d
  ]

  logged_out-IsDead :
      (h now : ℕ) (c : Claims) (st : AuthState) (s : Option Session)
      → IsDead h st
      → IsDead h (logout_session c now st s)
  logged_out-IsDead h now c st none d = d
  logged_out-IsDead h now c st (some s) d = elim (Bool-cases (is_live s)) [
    | inl live ↦ rw live (revoked-IsDead h now (λ r. r.id == s.id) st d)
    | inr gone ↦ rw gone d
  ]

  decoded_out-IsDead :
      (h : ℕ) (token : String) (now : ℕ) (st : AuthState) (a : Answer Claims)
      → IsDead h st
      → IsDead h (logout_decoded jwt token now st a)
  decoded_out-IsDead h token now st (raises e) d = d
  decoded_out-IsDead h token now st (ok c) d =
      logged_out-IsDead h now c st
        (find (λ s. s.refresh_token_hash == jwt.sha256 token) st.db.sessions) d

  logout-IsDead :
      (h : ℕ) (token : String) (now : ℕ) (st : AuthState)
      → IsDead h st
      → IsDead h (logout jwt token now st)
  unfolding logout
  logout-IsDead h token now st d =
      decoded_out-IsDead h token now st (decode_refresh_token jwt token now) d

  mark_all-db : (ss : List Session) (now : ℕ) (st : AuthState) → (mark_all ss now st).db ≡ st.db
  mark_all-db [] now st = refl
  mark_all-db (s ∷ ss) now st = mark_all-db ss now (mark_session_revoked s.id now st)

  no_hash : (a h : ℕ) → a ≢ h → ((a == h && true) || false) ≡ false
  no_hash a h n = ground (arith, n)

  login-IsDead :
      (h : ℕ) (u : User) (sid : Uuid) (ip user_agent : Option String) (req : Request)
      (st : AuthState)
      → IsFreshId h req.refresh_jti
      → IsDead h st
      → IsDead h (issue_token_pair jwt settings u sid ip user_agent req st).1
  unfolding issue_token_pair
  login-IsDead h u sid ip user_agent req st fresh d =
      rw d (no_hash (jwt.sha256 (mint_refresh_token jwt settings u.id sid req)) h (fresh _ refl))

  all-IsDead :
      (h : ℕ) (user : Uuid) (now : ℕ) (st : AuthState)
      → IsDead h st
      → IsDead h (logout_all user now st)
  unfolding logout_all
  all-IsDead h user now st d =
      let after : AuthState = record st {
        db = record st.db {
          sessions = update_where (is_live_of user) (revoked now) st.db.sessions;
          outbox = all_revoked user ∷ st.db.outbox;
        };
      } in
      subst (λ db. any (has_hash h) db.sessions ≡ false)
        (sym (mark_all-db (select (is_live_of user) st.db.sessions) now after))
        (revoked-IsDead h now (is_live_of user) st d)

  revoking-IsDead :
      (h : ℕ) (sid user : Uuid) (now : ℕ) (st : AuthState)
      → IsDead h st
      → IsDead h (revoke_session sid user now st).1
  unfolding revoke_session
  revoking-IsDead h sid user now st d =
      elim (Option-cases (find (λ s. s.id == sid) st.db.sessions)) [
        | inl missing ↦ rw (missing, revoke_session) d
        | inr (s, found) ↦ elim (Bool-cases (s.user_id == user)) [
          | inl mine ↦
              rw (found, mine, revoke_session) (revoked-IsDead h now (λ r. r.id == sid) st d)
          | inr other ↦ rw (found, other, revoke_session) d
        ]
      ]

  apply-IsDead :
      (h : ℕ) (op : Op) (st : AuthState) → IsFresh h op → IsDead h st → IsDead h (apply op st)
  unfolding apply
  apply-IsDead h (refreshing token req) st fresh d = refresh-IsDead h token req st fresh d
  apply-IsDead h (logging_in u sid ip user_agent req) st fresh d =
      login-IsDead h u sid ip user_agent req st fresh d
  apply-IsDead h (logging_out token now) st fresh d = logout-IsDead h token now st d
  apply-IsDead h (logging_out_all user now) st fresh d = all-IsDead h user now st d
  apply-IsDead h (revoking sid user now) st fresh d = revoking-IsDead h sid user now st d

  pub run-IsDead :
      (h : ℕ) (ops : List Op) (st : AuthState)
      → All (IsFresh h) ops
      → IsDead h st
      → IsDead h (run ops st)
  unfolding run
  run-IsDead h [] st fresh d = d
  run-IsDead h (op ∷ ops) st fresh d =
      run-IsDead h ops (apply op st) fresh.1 (apply-IsDead h op st fresh.0 d)
