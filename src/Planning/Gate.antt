-- ===== src/Planning/Gate.antt =====
-- engine/planning/gate.py: the edits of a plan at Gate 2.
pub mod Types
pub mod Dispose
pub mod Edit
pub mod Laws
pub mod Gaps
pub mod Sections
pub mod Plan
pub mod Decide
pub mod Approve
mod Decided
mod Status
pub mod Again
mod Tests
mod Trial
