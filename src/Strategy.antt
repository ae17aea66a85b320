-- ===== src/Strategy.antt =====
-- engine/strategy: the gate that approves a brief.
pub mod Gate
