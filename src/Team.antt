-- ===== src/Team.antt =====
-- The coordination plane: what is under src/team.
pub mod Hub
pub mod WebSocket
pub mod Presence
pub mod Live
pub mod Topics
mod Tests
pub mod Collaboration
pub mod Session
