-- ===== src/Proto/Client.antt =====
-- proto/client: the messages between the server and a player's client.
mod Tiles
mod Enums
mod Actions
mod Requests
mod Frames
unfoldable pub use Tiles.*
unfoldable pub use Enums.*
unfoldable pub use Actions.*
unfoldable pub use Requests.*
unfoldable pub use Frames.*
