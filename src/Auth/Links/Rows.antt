-- ===== src/Auth/Links/Rows.antt =====
-- The tables of services/auth-svc/app/models/user.py that the magic links use, with the columns that the
-- endpoints read or write.
use colab.Prelude.{ℕ, String, Option, List}
use colab.Prelude.Uuid.{Uuid}

pub data Purpose : Type 0 where
  email_verify password_reset email_change phone_change : Purpose

pub record MagicLink : Type 0 where
  pub id : Uuid
  pub user_id : Uuid
  pub purpose : Purpose
  pub token_hash : ℕ
  pub otp_hash : Option ℕ
  pub new_value : Option String
  pub expires_at : ℕ
  pub consumed_at : Option ℕ

-- A row of `users`.
pub record Account : Type 0 where
  pub id : Uuid
  pub email : Option String
  pub email_verified_at : Option ℕ
  pub password_hash : Option String

pub data LinkEvent : Type 0 where
  email_verified email_changed : Uuid → Option String → LinkEvent

pub record LinkDb : Type 0 where
  pub accounts : List Account
  pub links : List MagicLink
  pub outbox : List LinkEvent

pub data LinkError : Type 0 where
  unauthorized not_found conflict invalid rate_limited : LinkError

pub data Answer (A : Type 0) : Type 0 where
  ok : A → Answer A
  raises : LinkError → Answer A
