-- ===== src/Link.antt =====
-- What both ends of the robot link share: packages/reachy-contracts, and the framing of messages,
-- which services/groundstation and packages/reachy-session-client each hold a copy of.
pub mod Contract
pub mod Libraries
pub mod Framing
