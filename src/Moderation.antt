-- ===== src/Moderation.antt =====
-- services/moderation-svc.
pub mod Score
mod Tests
