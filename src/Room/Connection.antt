-- ===== src/Room/Connection.antt =====
-- What losing and regaining a connection does to a player (src/room.rs: handle_disconnect, handle_resume).
pub mod Lost
pub mod Resume
pub mod Token
pub mod Away
pub mod Distinct
