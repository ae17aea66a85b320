-- ===== src/Validation.antt =====
-- engine/validation: findings, the claim audit, packaging and the waiver lane.
pub mod Findings
pub mod Audit
pub mod Annotate
pub mod Counted
pub mod Waiver
mod Tests
