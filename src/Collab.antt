-- ===== src/Collab.antt =====
-- services/collab-svc: collaborations and their lifecycle.
pub mod Status
pub mod Table
pub mod Workers
pub mod Ops
pub mod Writes
pub mod History
pub mod Frozen
pub mod Pairs
pub mod Inactivity
pub mod OrderKeys
mod Tests
