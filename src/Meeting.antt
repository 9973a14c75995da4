-- ===== src/Meeting.antt =====
-- services/meeting-svc: scheduling of meetings, and the recording bot.
pub mod Recall
pub mod Rows
pub mod Schedule
pub mod Bot
mod Tests
