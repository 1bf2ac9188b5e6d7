-- ===== src/Server.antt =====
-- src/main.rs: the start of the server, and the texts of its environment.
pub mod Number
pub mod Address
pub mod Start
