-- ===== src/Fishing.antt =====
-- src/fishPolicy and src/slots/fishing: when a unit listens for other cliques, and for how long.
pub mod Session
pub mod Trolling
pub mod DeepFishing
pub mod Manager
pub mod FishSchedule
