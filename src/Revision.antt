-- ===== src/Revision.antt =====
-- engine/revision: the rounds that consume the pending comments and edits.
pub mod Finalize
mod Work
mod Replay
pub mod Once
mod Tests
