-- ===== src/Reachyctl.antt =====
-- cli/reachyctl: the operator's command line.
pub mod Steps
pub mod Deploy
