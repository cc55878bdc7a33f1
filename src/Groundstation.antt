-- ===== src/Groundstation.antt =====
-- services/groundstation: the service that answers frames.
pub mod Queue
pub mod Feed
pub mod Registry
pub mod Transport
pub mod Effects
pub mod Pipeline
pub mod Session
