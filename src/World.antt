-- ===== src/World.antt =====
-- What a handler reaches outside the room: the system clock, the rule engine's calls, and the
-- unbounded channels of the websocket connections (src/room.rs: ConnectionHandle, unix_time_ms).
use gb_mahjong_server_rust.Prelude.{
  ℕ, ◌+◌, ◌%◌, Option, List, [], ◌∷◌, ◌++◌, String, unwrap_or, u64_mod,
}
use gb_mahjong_server_rust.Proto.Client.{ServerFrame}
use mathlib.Core.Option

-- An `mpsc::UnboundedSender`: the number of its channel.
abbrev pub ConnectionSender : Type 0
ConnectionSender = ℕ

pub record ConnectionHandle : Type 0 where
  pub connection_id : String
  pub outbound_tx : ConnectionSender

-- `clock k` is the k-th reading of the system clock: the milliseconds since the epoch, or `none`
-- for a clock that stands before it. `sent` is what was handed to the channels, in order; that a
-- receiver may be gone is only logged by the code.
pub record World : Type 0 where
  pub clock : ℕ → Option ℕ
  pub reads : ℕ
  pub calls : ℕ
  pub sent : List (ConnectionSender × ServerFrame)

unfoldable pub unix_time_ms : World → ℕ × World
unix_time_ms w = (
  unwrap_or (Option.map (λ ms. ms % u64_mod) (w.clock w.reads)) 0,
  record w { reads = w.reads + 1 },
)

-- `UnboundedSender::send`
unfoldable pub send : ConnectionSender → ServerFrame → World → World
send tx frame w = record w { sent = w.sent ++ (tx, frame) ∷ [] }

unfoldable pub send_frame : ConnectionHandle → ServerFrame → World → World
unfolding send
send_frame connection frame w = send connection.outbound_tx frame w
