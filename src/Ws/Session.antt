-- ===== src/Ws/Session.antt =====
-- src/ws.rs: ConnectionSession, and the frames that a connection answers by itself (build_pong,
-- build_action_rejected).
use gb_mahjong_server_rust.Prelude.{String, Option, none, some}
use gb_mahjong_server_rust.Proto.Enum.{as_i32}
use gb_mahjong_server_rust.Proto.Client.{
  RejectCode, Heartbeat, ServerPayload, ServerFrame, reject_code_enum,
}
use gb_mahjong_server_rust.World
use gb_mahjong_server_rust.World.{ConnectionSender, ConnectionHandle, unix_time_ms}
use gb_mahjong_server_rust.App.{AppState, next_event_seq}

pub record ConnectionSession : Type 0 where
  pub connection_id : String
  pub outbound_tx : Option ConnectionSender
  pub current_room_id : Option String

unfoldable pub new : String → ConnectionSession
new connection_id = record {
  connection_id = connection_id;
  outbound_tx = none;
  current_room_id = none;
}

unfoldable pub with_outbound : ConnectionSender → ConnectionSession → ConnectionSession
with_outbound outbound_tx connection = record connection { outbound_tx = some outbound_tx }

-- `none` is the panic of `expect("outbound channel should be installed before use")`.
unfoldable pub handle : ConnectionSession → Option ConnectionHandle
handle connection = elim connection.outbound_tx [
  | none ↦ none
  | some tx ↦ some (record { connection_id = connection.connection_id; outbound_tx = tx })
]

-- The state with another world in its rooms' manager.
abbrev pub put_world : World.World → AppState → AppState
put_world w app = record app { room_manager = record app.room_manager { world = w } }

-- `ConnectionSession::send_frame`, which panics as `handle` does.
unfoldable pub send_frame : ConnectionSession → ServerFrame → AppState → Option AppState
unfolding handle
send_frame connection frame app = elim (handle connection) [
  | none ↦ none
  | some h ↦ some (put_world (World.send_frame h frame app.room_manager.world) app)
]

unfoldable pub build_pong : String → Heartbeat → AppState → ServerFrame × AppState
unfolding next_event_seq unix_time_ms
build_pong request_id heartbeat app =
    let (event_seq, app') = next_event_seq app in
    let (now, w) = unix_time_ms app'.room_manager.world in
    (
      record {
        event_seq = event_seq;
        payload = some (
            ServerPayload.pong (record {
              request_id = request_id;
              server_time_ms = now;
              echoed_client_time_ms = heartbeat.client_time_ms;
              latest_event_seq = event_seq;
            }));
      },
      put_world w app',
    )

unfoldable pub build_action_rejected :
    String → RejectCode → String → AppState → ServerFrame × AppState
unfolding next_event_seq
build_action_rejected request_id reject_code message app =
    let (event_seq, app') = next_event_seq app in
    (
      record {
        event_seq = event_seq;
        payload = some (
            ServerPayload.action_rejected (record {
              request_id = request_id;
              reject_code = as_i32 reject_code;
              message = message;
              expected_event_seq = 0;
              actual_event_seq = 0;
              action_window_id = 0;
            }));
      },
      app',
    )
