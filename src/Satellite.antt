-- ===== src/Satellite.antt =====
-- apps/ha-satellite: the application on the robot.
pub mod Motors
pub mod Pipeline
pub mod DaemonLink
pub mod Perception
pub mod Gaze
