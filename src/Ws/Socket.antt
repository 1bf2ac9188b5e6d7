-- ===== src/Ws/Socket.antt =====
-- src/ws.rs: handle_socket, the loop of a connection over what arrives on its socket and its channel.
use gb_mahjong_server_rust.Prelude.{
  ℕ, Bool, true, false, Option, none, some, List, [], ◌∷◌, ◌++◌, ◌==◌, nat_eq, filter_map,
  if◌then◌else◌, zero, suc,
}
use gb_mahjong_server_rust.Proto.Client.{RejectCode, ClientFrame, ServerFrame}
use gb_mahjong_server_rust.World.{ConnectionSender, World}
use gb_mahjong_server_rust.Manager.{disconnect_from}
use gb_mahjong_server_rust.App.{AppState, allocate_connection_id}
use gb_mahjong_server_rust.Ws.Session.{ConnectionSession, new, with_outbound}
use gb_mahjong_server_rust.Ws.Frame.{refuse, handle_client_frame}

-- What one round of the `select!` meets. A Boolean is whether a send on the socket succeeds.
pub data SocketEvent : Type 0 where
  outbound : (is_sent : Bool) → SocketEvent
  senders_dropped : SocketEvent
  binary : (payload : List ℕ) → SocketEvent
  text : SocketEvent
  ping : (is_answered : Bool) → SocketEvent
  pong : SocketEvent
  close : SocketEvent
  receive_error : SocketEvent
  stream_end : SocketEvent

-- The frames of a channel, in order.
abbrev pub channel : ConnectionSender → World → List ServerFrame
channel tx w = filter_map (λ m. if m.0 == tx then some m.1 else none) w.sent

abbrev pub nth : ℕ → List ServerFrame → Option ServerFrame
nth k [] = none
nth zero (x ∷ xs) = some x
nth (suc k) (x ∷ xs) = nth k xs

-- A connection's task: its session, how many frames it took from its channel, and what it wrote on
-- the socket.
pub record SocketTask : Type 0 where
  pub session : ConnectionSession
  pub outbound_rx : ConnectionSender
  pub received : ℕ
  pub wire : List ServerFrame

-- How a round ends: the loop goes on, it is left, or the task panics.
pub data Flow : Type 0 where
  continue : SocketTask → AppState → Flow
  break : SocketTask → AppState → Flow
  panic : Flow

unfoldable pub proceed : SocketTask → Option (ConnectionSession × AppState) → Flow
proceed task none = panic
proceed task (some (session, app)) = continue (record task { session = session }) app

-- `recv` waits while the channel is empty.
unfoldable pub receive_outbound : Bool → Option ServerFrame → SocketTask → AppState → Flow
receive_outbound is_sent none task app = continue task app
receive_outbound true (some frame) task app =
    continue (record task { received = suc task.received; wire = task.wire ++ frame ∷ [] }) app
receive_outbound false (some frame) task app =
    break (record task { received = suc task.received }) app

-- The decoder of prost is a parameter: `none` is a payload that does not decode.
module _ (decode : List ℕ → Option ClientFrame) where
  unfoldable pub socket_step : SocketEvent → SocketTask → AppState → Flow
  unfolding receive_outbound proceed
  socket_step (outbound is_sent) task app =
      receive_outbound is_sent (nth task.received (channel task.outbound_rx app.room_manager.world))
        task app
  socket_step senders_dropped task app = break task app
  socket_step (binary payload) task app = elim (decode payload) [
    | some frame ↦ proceed task (handle_client_frame task.session frame app)
    | none ↦
        proceed task
          (refuse "" RejectCode.invalid_request "invalid protobuf binary frame" task.session app)
  ]
  socket_step text task app = proceed task (
      refuse "" RejectCode.invalid_request
        "text frames are not supported; send protobuf binary frames" task.session app)
  socket_step (ping true) task app = continue task app
  socket_step (ping false) task app = break task app
  socket_step pong task app = continue task app
  socket_step close task app = break task app
  socket_step receive_error task app = break task app
  socket_step stream_end task app = break task app

  -- The rounds of the loop until it is left or the events are used up.
  unfoldable pub socket_loop : List SocketEvent → SocketTask → AppState → Flow
  socket_loop [] task app = continue task app
  socket_loop (event ∷ events) task app = elim (socket_step event task app) [
    | continue task' app' ↦ socket_loop events task' app'
    | break task' app' ↦ break task' app'
    | panic ↦ panic
  ]

-- The code before the loop, with a new channel.
unfoldable pub open_socket : ConnectionSender → AppState → SocketTask × AppState
unfolding allocate_connection_id new with_outbound
open_socket outbound_tx app =
    let (connection_id, app') = allocate_connection_id app in
    (
      record {
        session = with_outbound outbound_tx (new connection_id);
        outbound_rx = outbound_tx;
        received = 0;
        wire = [];
      },
      app',
    )

-- The code after the loop.
unfoldable pub close_socket : SocketTask → AppState → AppState
close_socket task app = elim task.session.current_room_id [
  | none ↦ app
  | some room_id ↦ record app {
    room_manager = disconnect_from room_id task.session.connection_id app.room_manager;
  }
]
