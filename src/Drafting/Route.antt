-- ===== src/Drafting/Route.antt =====
-- engine/drafting/route.py: the lanes of a section's slots, from the plan's gaps.
pub mod Types
pub mod Plan
pub mod Gaps
pub mod Gapped
pub mod Laws
pub mod Outline
mod Tests
