-- ===== src/Auth/Sessions.antt =====
-- services/auth-svc/app/routers/token.py and sessions.py, `_issue_token_pair` of login.py, and the
-- revocation keys of app/services/tokens.py. A SHA-256 digest is its number. A request's transaction is
-- that of `get_session` in packages/colab_common: an exception rolls the tables back, and Redis keeps
-- what was written.
pub mod Rows
pub mod Single
pub mod Dead
pub mod Refused
pub mod Replay
use colab.Prelude.{
  ℕ, ◌+◌, ◌*◌, ◌/◌, String, Bool, true, false, not, ◌&&◌, ◌||◌, Option, none, some, List, [], ◌∷◌,
  ◌++◌, ◌==◌, ltb, find, any, map, select, update_where, if◌then◌else◌,
}
use colab.Prelude.Uuid.{Uuid}
use colab.Auth.Sessions.Rows.{
  Claims, TokenKind, access, refresh, Jwt, User, Session, AuthDb, session_revoked, all_revoked,
  KeyLife, AuthState, TokenPair, AuthError, unauthorized, not_found, forbidden, rate_limited,
  Answer, ok, raises,
}

-- `setex` and `exists`, with times in microseconds.
abbrev pub set_key : Uuid → ℕ → ℕ → List KeyLife → List KeyLife
set_key k ttl now keys = record { key = k; expires_at = now + ttl * 1_000_000 } ∷ keys

abbrev pub has_live_key : Uuid → ℕ → List KeyLife → Bool
has_live_key k now keys = any (λ e. e.key == k && ltb now e.expires_at) keys

abbrev pub mark_jti_revoked : Uuid → ℕ → ℕ → AuthState → AuthState
mark_jti_revoked jti ttl now st = record st { revoked_jtis = set_key jti ttl now st.revoked_jtis }

abbrev pub is_jti_revoked : Uuid → ℕ → AuthState → Bool
is_jti_revoked jti now st = has_live_key jti now st.revoked_jtis

abbrev pub mark_session_revoked : Uuid → ℕ → AuthState → AuthState
mark_session_revoked sid now st = record st {
  revoked_sessions = set_key sid 2_592_000 now st.revoked_sessions;
}

abbrev pub is_live : Session → Bool
is_live s = elim s.revoked_at [ none ↦ true | some t ↦ false ]

abbrev pub revoked : ℕ → Session → Session
revoked now s = record s { revoked_at = some now }

abbrev pub with_sessions : List Session → AuthState → AuthState
with_sessions rows st = record st { db = record st.db { sessions = rows } }

-- The transaction around an endpoint.
abbrev pub get_session : {A : Type 0} → AuthState → Answer A × AuthState → Answer A × AuthState
get_session st (ok a, after) = (ok a, after)
get_session st (raises e, after) = (raises e, record after { db = st.db })

-- What is new in a request: the time, the limiter's answer and the ids of the minted tokens.
pub record Request : Type 0 where
  pub now : ℕ
  pub within_limit : Bool
  pub refresh_jti : Uuid
  pub access_jti : Uuid

pub record JwtSettings : Type 0 where
  pub access_ttl_seconds : ℕ
  pub refresh_ttl_seconds : ℕ

abbrev is_verified : User → Bool
is_verified u = elim u.email_verified_at [ none ↦ false | some t ↦ true ]

abbrev pub has_hash : ℕ → Session → Bool
has_hash h s = s.refresh_token_hash == h && is_live s

abbrev pub logout_session : Claims → ℕ → AuthState → Option Session → AuthState
logout_session c now st none = st
logout_session c now st (some s) =
    if is_live s
    then mark_jti_revoked c.jti 2_592_000 now (
        mark_session_revoked c.sid now
          (with_sessions (update_where (λ r. r.id == s.id) (revoked now) st.db.sessions) st))
    else st

module _ (jwt : Jwt) where
  -- `_decode_token_sync` for refresh tokens
  abbrev pub decode_refresh_token : String → ℕ → Answer Claims
  decode_refresh_token token now = elim (jwt.decode token (now / 1_000_000)) [
    | none ↦ raises unauthorized
    | some c ↦ elim c.typ [ refresh ↦ ok c | access v ↦ raises unauthorized ]
  ]

  abbrev pub logout_decoded : String → ℕ → AuthState → Answer Claims → AuthState
  logout_decoded token now st (raises e) = st
  logout_decoded token now st (ok c) =
      logout_session c now st (find (λ s. s.refresh_token_hash == jwt.sha256 token) st.db.sessions)

  unfoldable pub logout : String → ℕ → AuthState → AuthState
  logout token now st = logout_decoded token now st (decode_refresh_token token now)

module _ (jwt : Jwt) (settings : JwtSettings) where
  abbrev pub mint_refresh_token : Uuid → Uuid → Request → String
  mint_refresh_token user sid req = jwt.encode (record {
    sub = user;
    jti = req.refresh_jti;
    sid = sid;
    iat = req.now / 1_000_000;
    exp = req.now / 1_000_000 + settings.refresh_ttl_seconds;
    typ = refresh;
  })

  abbrev pub mint_access_token : Uuid → Uuid → Bool → Request → String
  mint_access_token user sid email_verified req = jwt.encode (record {
    sub = user;
    jti = req.access_jti;
    sid = sid;
    iat = req.now / 1_000_000;
    exp = req.now / 1_000_000 + settings.access_ttl_seconds;
    typ = access email_verified;
  })

  -- The row with the new token's hash and id.
  abbrev pub rotated : Uuid → Uuid → Request → Session → Session
  rotated user sid req s = record s {
    refresh_token_hash = jwt.sha256 (mint_refresh_token user sid req);
    refresh_jti = req.refresh_jti;
    last_seen_at = req.now;
  }

  abbrev pub refresh_for :
      Claims → Request → AuthState → Session → Option User → Answer TokenPair × AuthState
  refresh_for c req st s none = (raises unauthorized, st)
  refresh_for c req st s (some u) =
      if u.is_active
      then (
        ok (record {
          user_id = u.id;
          access_token = mint_access_token c.sub c.sid (is_verified u) req;
          refresh_token = mint_refresh_token c.sub c.sid req;
        }),
        with_sessions (update_where (λ r. r.id == s.id) (rotated c.sub c.sid req) st.db.sessions)
            (mark_jti_revoked c.jti settings.refresh_ttl_seconds req.now st),
      )
      else (raises unauthorized, st)

  abbrev pub refresh_session :
      Claims → Request → AuthState → Option Session → Answer TokenPair × AuthState
  refresh_session c req st none = (raises unauthorized, st)
  refresh_session c req st (some s) = refresh_for c req st s (find (λ u. u.id == c.sub) st.db.users)

  abbrev pub refresh_decoded :
      String → Request → AuthState → Answer Claims → Answer TokenPair × AuthState
  refresh_decoded token req st (raises e) = (raises e, st)
  refresh_decoded token req st (ok c) =
      if is_jti_revoked c.jti req.now st
      then (
        raises unauthorized,
        with_sessions (update_where (λ s. s.id == c.sid) (revoked req.now) st.db.sessions)
            (mark_session_revoked c.sid req.now st),
      )
      else refresh_session c req st (find (has_hash (jwt.sha256 token)) st.db.sessions)

  unfoldable pub refresh_token : String → Request → AuthState → Answer TokenPair × AuthState
  refresh_token token req st = get_session st (
      if req.within_limit
      then refresh_decoded token req st (decode_refresh_token jwt token req.now)
      else (raises rate_limited, st))

  -- `_issue_token_pair`, with the new session's id.
  unfoldable pub issue_token_pair :
      User → Uuid → Option String → Option String → Request → AuthState → TokenPair × AuthState
  issue_token_pair u sid ip user_agent req st =
      let token = mint_refresh_token u.id sid req in
      let s : Session = record {
        id = sid;
        user_id = u.id;
        refresh_token_hash = jwt.sha256 token;
        refresh_jti = req.refresh_jti;
        user_agent = user_agent;
        ip = ip;
        last_seen_at = req.now;
        revoked_at = none;
        created_at = req.now;
      } in
      let pair : TokenPair = record {
        user_id = u.id;
        access_token = mint_access_token u.id sid (is_verified u) req;
        refresh_token = token;
      } in
      (
        pair,
        record st {
          db = record st.db {
            users =
                update_where (λ v. v.id == u.id) (λ v. record v { last_login_at = some req.now })
                  st.db.users;
            sessions = s ∷ st.db.sessions;
          };
        },
      )

abbrev pub mark_all : List Session → ℕ → AuthState → AuthState
mark_all [] now st = st
mark_all (s ∷ ss) now st = mark_all ss now (mark_session_revoked s.id now st)

abbrev pub is_live_of : Uuid → Session → Bool
is_live_of user s = s.user_id == user && is_live s

unfoldable pub logout_all : Uuid → ℕ → AuthState → AuthState
logout_all user now st = mark_all (select (is_live_of user) st.db.sessions) now (record st {
  db = record st.db {
    sessions = update_where (is_live_of user) (revoked now) st.db.sessions;
    outbox = all_revoked user ∷ st.db.outbox;
  };
})

-- `list_sessions`: the rows that it shows.
abbrev pub list_sessions : Uuid → AuthDb → List Session
list_sessions user db = select (is_live_of user) db.sessions

unfoldable pub revoke_session : Uuid → Uuid → ℕ → AuthState → Answer (List Session) × AuthState
revoke_session sid user now st = elim (find (λ s. s.id == sid) st.db.sessions) [
  | none ↦ (raises not_found, st)
  | some s ↦
      if s.user_id == user
      then (let after : AuthDb = record st.db {
        sessions = update_where (λ r. r.id == sid) (revoked now) st.db.sessions;
        outbox = session_revoked user sid ∷ st.db.outbox;
      } in
          (ok (list_sessions user after), mark_session_revoked sid now (record st { db = after })))
      else (raises forbidden, st)
]
