-- ===== src/Web/Jobs.antt =====
-- engine/web/jobs.py: the one-worker job lane, its journal and its recovery at boot.
-- The runner is a record. A job's dict is shared by the registry, the queue and the worker, so the
-- queue and the worker hold ids, and the registry is the store. An id `job-0007` is its number.
pub mod Types
pub mod Steps
pub mod Restart
pub mod Rows
pub mod Valid
mod Worker
pub mod Lane
pub mod Journal
pub mod Owed
pub mod Boot
pub mod Recovery
mod Tests
