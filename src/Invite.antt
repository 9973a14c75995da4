-- ===== src/Invite.antt =====
-- services/invite-svc.
pub mod Quota
pub mod Paging
pub mod Invites
mod Tests
