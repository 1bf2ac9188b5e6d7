-- ===== src/Proto.antt =====
-- The protobuf schema under proto/, as the server's code sees it.
pub mod Enum
pub mod Client
pub mod Engine
