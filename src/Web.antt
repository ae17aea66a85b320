-- ===== src/Web.antt =====
-- engine/web: the operators' doors.
pub mod Jobs
pub mod Share
pub mod Events
pub mod Pings
