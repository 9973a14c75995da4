-- ===== src/Auth/Sessions/Rows.antt =====
-- The tables of services/auth-svc/app/models/user.py that the session endpoints use, with the columns
-- that these read or write, the claims of app/services/tokens.py, and the keys in Redis.
use colab.Prelude.{ℕ, String, Bool, Option, List}
use colab.Prelude.Uuid.{Uuid}

-- `typ`, and the flag that an access token carries.
pub data TokenKind : Type 0 where
  refresh : TokenKind
  access : Bool → TokenKind

-- The claims that differ from token to token.
pub record Claims : Type 0 where
  pub sub : Uuid
  pub jti : Uuid
  pub sid : Uuid
  pub iat : ℕ
  pub exp : ℕ
  pub typ : TokenKind

-- PyJWT with the service's keys, and SHA-256: `decode token now` is what a valid token holds.
pub record Jwt : Type 0 where
  pub encode : Claims → String
  pub decode : String → ℕ → Option Claims
  pub sha256 : String → ℕ

pub record User : Type 0 where
  pub id : Uuid
  pub email_verified_at : Option ℕ
  pub is_active : Bool
  pub last_login_at : Option ℕ

pub record Session : Type 0 where
  pub id : Uuid
  pub user_id : Uuid
  pub refresh_token_hash : ℕ
  pub refresh_jti : Uuid
  pub user_agent : Option String
  pub ip : Option String
  pub last_seen_at : ℕ
  pub revoked_at : Option ℕ
  pub created_at : ℕ

-- `auth.session.revoked`, for one session or for all of a user's.
pub data AuthEvent : Type 0 where
  session_revoked : Uuid → Uuid → AuthEvent
  all_revoked : Uuid → AuthEvent

pub record AuthDb : Type 0 where
  pub users : List User
  pub sessions : List Session
  pub outbox : List AuthEvent

-- A key in Redis and when it ends.
pub record KeyLife : Type 0 where
  pub key : Uuid
  pub expires_at : ℕ

-- The tables, `revoked:jti:{…}` and `revoked:session:{…}`.
pub record AuthState : Type 0 where
  pub db : AuthDb
  pub revoked_jtis : List KeyLife
  pub revoked_sessions : List KeyLife

pub record TokenPair : Type 0 where
  pub user_id : Uuid
  pub access_token : String
  pub refresh_token : String

pub data AuthError : Type 0 where
  unauthorized not_found forbidden rate_limited : AuthError

pub data Answer (A : Type 0) : Type 0 where
  ok : A → Answer A
  raises : AuthError → Answer A
