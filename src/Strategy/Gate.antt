-- ===== src/Strategy/Gate.antt =====
-- engine/strategy/gate.py: Gate 1.
pub mod Types
pub mod Edits
pub mod Ids
pub mod Approve
pub mod Effects
pub mod Replay
pub mod Stop
pub mod Course
pub mod Resume
pub mod Crash
pub mod Freeze
mod Tests
