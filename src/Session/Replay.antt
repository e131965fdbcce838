-- ===== src/Session/Replay.antt =====
-- Proofs about the records that a method persists and `apply`, which replays them.
pub mod Groups
pub mod Comments
pub mod Methods
pub mod Update
pub mod Prune
