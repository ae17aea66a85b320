-- ===== src/Planning/Sections.antt =====
-- engine/planning/sections.py: slots grouped in sections, the check that no slot is missed, and the
-- slots that hang on a gapped gate.
pub mod Aggregate
pub mod Laws
pub mod Cascade
mod Tests
