-- ===== src/RunLog.antt =====
-- engine/runlog/writer.py: the append-only log of a run, its numbering and its totals.
pub mod Writer
pub mod Laws
mod Tests
