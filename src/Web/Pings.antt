-- ===== src/Web/Pings.antt =====
-- engine/web/pings.py: the questions put to a person for a gap, and their answers.
pub mod Types
pub mod Lane
pub mod Once
mod Tests
