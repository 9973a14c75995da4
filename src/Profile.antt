-- ===== src/Profile.antt =====
-- services/profile-svc.
pub mod Badge
mod Tests
