-- ===== src/Auth.antt =====
-- services/auth-svc: sessions and refresh tokens, and magic links.
pub mod Sessions
pub mod Links
mod Tests
