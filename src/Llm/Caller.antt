-- ===== src/Llm/Caller.antt =====
-- engine/llm/caller.py: what a call costs, the shared budget, and the traced call.
pub mod Call
pub mod Laws
mod Tests
