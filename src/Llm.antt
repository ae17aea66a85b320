-- ===== src/Llm.antt =====
-- engine/llm: the model-call boundary.
pub mod Caller
