-- ===== src/Pipeline.antt =====
-- engine/pipeline: the stage order.
pub mod Driver
