-- ===== src/Web/Events.antt =====
-- engine/web/events.py and `last_wins` of engine/metrics/walker.py: the feedback events of a pursuit.
pub mod Types
pub mod Read
mod Collapse
pub mod Append
pub mod Pending
pub mod Cids
pub mod Tests
