-- ===== src/Pipeline/Driver.antt =====
-- engine/pipeline/driver.py: `advance`, the one authority on the order of the stages.
-- The stages are an interface over a workspace `W`. The record of the runs (run logs opened and
-- closed, and the stages called between) is kept beside the workspace, the newest entry first.
pub mod Types
pub mod Advance
pub mod Rule
pub mod Order
pub mod Stops
pub mod Brackets
mod Tests
