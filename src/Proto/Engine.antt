-- ===== src/Proto/Engine.antt =====
-- proto/engine: the messages between the server and the rule engine.
mod Tiles
mod Enums
mod Actions
mod Requests
mod Responses
unfoldable pub use Tiles.*
unfoldable pub use Enums.*
unfoldable pub use Actions.*
unfoldable pub use Requests.*
unfoldable pub use Responses.*
