-- ===== src/Room.antt =====
-- src/room.rs: the task of one room.
pub mod State
pub mod Frames
pub mod Send
pub mod Seating
pub mod Reconnect
pub mod Identity
pub mod Extends
pub mod Phase
pub mod Readiness
pub mod Unordered
pub mod Admission
pub mod Connection
pub mod Parse
pub mod Request
pub mod Action
pub mod Lobby
pub mod Sequence
pub mod Invariant
