-- ===== src/Drafting.antt =====
-- engine/drafting: which slots the model drafts.
pub mod Route
