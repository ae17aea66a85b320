-- ===== src/Web/Share.antt =====
-- engine/web/share.py: the guests' links to a review, their revocation and the log of each attempt.
pub mod Types
pub mod Links
pub mod Fold
pub mod Switch
pub mod Mint
pub mod Access
mod Tests
