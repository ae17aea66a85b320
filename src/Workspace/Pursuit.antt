-- ===== src/Workspace/Pursuit.antt =====
-- engine/workspace/pursuit.py: artifacts, the freeze door and the checkpoints of one pursuit.
pub mod Types
pub mod Files
pub mod Read
pub mod Runs
mod Tests
