-- ===== src/Room/Sequence.antt =====
-- The numbers of a room's frames (src/room.rs: next_event_seq): the order in which they are handed out.
pub mod Order
pub mod Steps
pub mod Handlers
pub mod Run
pub use Order.*
