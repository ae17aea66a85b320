-- ===== src/Planning.antt =====
-- engine/planning: the plan's sections, and the edits of the gate that approves it.
pub mod Sections
pub mod Gate
