-- ===== src/Support.antt =====
-- services/support-svc: tickets, their due dates and the scan for missed ones.
mod Tests
pub mod Tickets
