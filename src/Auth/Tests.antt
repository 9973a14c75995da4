-- ===== src/Auth/Tests.antt =====
-- Runs of the session endpoints, with three tokens, and of a password reset.
use colab.Prelude.{
  ℕ, ◌≤◌, String, true, none, some, List, [], ◌∷◌, ◌≡◌, ◌≢◌, refl, sym, ◌∙◌, ◌==◌, ==_iff,
  Bool-cases, inl, inr, ltb, str_eq, length, select, if◌then◌else◌, All, arith,
}
use colab.Prelude.Uuid.{Uuid}
use colab.Auth.Sessions.Rows.{
  Claims, refresh, Jwt, Session, AuthState, unauthorized, raises, ok, TokenPair,
}
use colab.Auth.Sessions.{Request, JwtSettings, refresh_token, logout}
use colab.Auth.Sessions.Dead.{Op, refreshing, logging_out, run, IsFreshId, IsFresh}
use colab.Auth.Sessions.Refused.{IsRefused, refresh_token-used, refresh_token-logged_out}
use colab.Auth.Sessions.Replay.{refresh_token-replayed}
use colab.Auth.Links.Rows.{Purpose, MagicLink, Account, LinkDb, password_reset}
use colab.Auth.Links.Rows as LinkRows
use colab.Auth.Links.{LinkCall, reset_finish}
use colab.Auth.Links.Dead as LinkDead
use colab.Auth.Links.SingleUse.{reset_finish-used}

abbrev claims : Uuid → Claims
claims jti = record { sub = 7; jti = jti; sid = 70; iat = 100; exp = 2_592_100; typ = refresh }

-- The text of a token names its id; every token decodes until its end.
abbrev token_of : Uuid → String
token_of jti = if jti == 1 then "first" else if jti == 2 then "second" else "third"

abbrev id_of : String → Uuid
id_of t = if str_eq t "first" then 1 else if str_eq t "second" then 2 else 3

abbrev jwt : Jwt
jwt = record {
  encode = λ c. token_of c.jti;
  decode = λ t now. if ltb now 2_592_130 then some (claims (id_of t)) else none;
  sha256 = λ t. id_of t;
}

abbrev settings : JwtSettings
settings = record { access_ttl_seconds = 900; refresh_ttl_seconds = 2_592_000 }

abbrev session : Session
session = record {
  id = 70;
  user_id = 7;
  refresh_token_hash = 1;
  refresh_jti = 1;
  user_agent = none;
  ip = none;
  last_seen_at = 100;
  revoked_at = none;
  created_at = 100;
}

abbrev start : AuthState
start = record {
  db = record {
    users =
        record { id = 7; email_verified_at = none; is_active = true; last_login_at = none } ∷ [];
    sessions = session ∷ [];
    outbox = [];
  };
  revoked_jtis = [];
  revoked_sessions = [];
}

abbrev request : ℕ → Uuid → Request
request now jti = record { now = now; within_limit = true; refresh_jti = jti; access_jti = 9 }

abbrev second_pair : TokenPair
second_pair = record { user_id = 7; access_token = "third"; refresh_token = "second" }

refreshed : (refresh_token jwt settings "first" (request 200_000_000 2) start).0 ≡ ok second_pair
unfolding refresh_token
refreshed = refl

fresh_second : (jti : Uuid) → jti ≢ 1 → IsFreshId jwt settings 1 jti
fresh_second jti n c e h = absurd (n (sym e ∙ first c.jti h))
  where
    wrong : ◌≡◌ {A = ℕ} 2 1 → ⊥
    wrong e' = omega (arith, e')

    wrong_third : ◌≡◌ {A = ℕ} 3 1 → ⊥
    wrong_third e' = omega (arith, e')

    first : (k : Uuid) → id_of (token_of k) ≡ 1 → k ≡ 1
    first k h' = elim (Bool-cases (k == 1)) [
      | inl one ↦ (==_iff k 1).0 one
      | inr other ↦ elim (Bool-cases (k == 2)) [
        | inl two ↦ absurd (wrong (rw (other, two) at h'))
        | inr third ↦ absurd (wrong_third (rw (other, third) at h'))
      ]
    ]

one_row : length (select (λ s. s.refresh_token_hash == 1) start.db.sessions) ≤ 1
one_row = omega arith

abbrev later_ops : List Op
later_ops = refreshing "second" (request 300_000_000 3) ∷ logging_out "third" 400_000_000 ∷ []

ops-IsFresh : All (IsFresh jwt settings 1) later_ops
ops-IsFresh = (fresh_second 3 (omega arith), (tt, tt))

refresh_token-used_example : IsRefused jwt settings "first" (request 500_000_000 3) (
    run jwt settings later_ops (refresh_token jwt settings "first" (request 200_000_000 2) start).1)
refresh_token-used_example =
    refresh_token-used jwt settings "first" (request 200_000_000 2) start later_ops
      (request 500_000_000 3) refreshed one_row (fresh_second 2 (omega arith)) ops-IsFresh

refresh_token-logged_out_example :
    IsRefused jwt settings "first"
      (request 500_000_000 3)
      (run jwt settings later_ops (logout jwt "first" 200_000_000 start))
refresh_token-logged_out_example =
    refresh_token-logged_out jwt settings "first" 200_000_000 start {c = claims 1} later_ops
      (request 500_000_000 3) refl one_row ops-IsFresh

abbrev after_rotation : AuthState
after_rotation = record start {
  db = record start.db {
    sessions = record session { refresh_token_hash = 2; refresh_jti = 2 } ∷ [];
  };
  revoked_jtis = record { key = 1; expires_at = 2_592_200_000_000 } ∷ [];
}

refresh_token-replayed_example :
    ((refresh_token jwt settings "first" (request 300_000_000 3) after_rotation).0
      ≡ raises unauthorized)
    × ((refresh_token jwt settings "first" (request 300_000_000 3) after_rotation).1.db
        ≡ after_rotation.db)
    × ((refresh_token jwt settings "second"
          (request 400_000_000 3)
          (refresh_token jwt settings "first" (request 300_000_000 3) after_rotation).1).0
        ≡ (refresh_token jwt settings "second" (request 400_000_000 3) after_rotation).0)
refresh_token-replayed_example =
    refresh_token-replayed jwt settings "first" (request 300_000_000 3) after_rotation
      {c = claims 1} "second" (request 400_000_000 3) refl refl refl

abbrev digest : String → ℕ
digest t = if str_eq t "link" then 1 else 2

abbrev reset_db : LinkDb
reset_db = record {
  accounts =
      record { id = 7; email = some "a@b.c"; email_verified_at = none; password_hash = none } ∷ [];
  links =
      record {
        id = 30;
        user_id = 7;
        purpose = password_reset;
        token_hash = 1;
        otp_hash = none;
        new_value = none;
        expires_at = 900_000_000;
        consumed_at = none;
      }
      ∷ [];
  outbox = [];
}

abbrev reset_call : LinkCall
reset_call = record { now = 200; within_limit = true; fresh = 31; token = "other"; code = "123456" }

abbrev reset_ops : List LinkDead.Op
reset_ops = LinkDead.starting_reset "a@b.c" reset_call ∷ []

reset_fine : (reset_finish digest "link" true "argon2" 100 reset_db).0 ≡ LinkRows.ok tt
unfolding reset_finish
reset_fine = refl

one_link : length (select (λ l. l.token_hash == digest "link") reset_db.links) ≤ 1
one_link = omega arith

other_link : All (LinkDead.IsFresh digest (digest "link")) reset_ops
other_link = (omega arith, tt)

reset_finish-used_example :
    (reset_finish digest "link" true "again" 300
      (LinkDead.run digest reset_ops (reset_finish digest "link" true "argon2" 100 reset_db).1)).0
    ≡ LinkRows.raises LinkRows.unauthorized
reset_finish-used_example =
    reset_finish-used digest "link" "argon2" true 100 reset_db reset_ops true "again" 300 reset_fine
      one_link other_link
