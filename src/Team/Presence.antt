-- ===== src/Team/Presence.antt =====
-- src/team/presence.ts: which installations are connected, and the live sessions they join.
pub mod State
pub mod Rooms
pub mod Instances
pub mod Evolution
pub mod Changes
pub mod RoomSteps
pub mod Registry
pub mod Codes
pub mod Departure
pub mod Holding
pub mod Leaving
pub mod Closing
