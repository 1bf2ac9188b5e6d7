-- ===== src/Ws.antt =====
-- src/ws.rs: one websocket connection.
pub mod Session
pub mod Frame
pub mod Socket
pub mod Safety
pub mod Wire
pub mod Fifo
pub mod Closing
pub mod Connections
