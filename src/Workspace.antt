-- ===== src/Workspace.antt =====
-- engine/workspace: the files of a pursuit.
pub mod Pursuit
