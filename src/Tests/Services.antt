-- ===== src/Tests/Services.antt =====
-- The theorems about actions, the rooms' manager and the connections, applied to runs.
use gb_mahjong_server_rust.Prelude.{
  nat_eq, ℕ, ◌≡◌, refl, ◌⊎◌, Option, some, none, true, false, List, [], ◌∷◌, ◌++◌, ok, err,
  string_eq, nat_eq,
}
use gb_mahjong_server_rust.Prelude.Int.{pos}
use gb_mahjong_server_rust.HashMap.{values}
use gb_mahjong_server_rust.Proto.Client.{
  Seat, Action, discard, PlayerActionRequest, ServerFrame, ClientFrame, seat_eq,
}
use gb_mahjong_server_rust.Proto.Engine.{ValidateActionRequest}
use gb_mahjong_server_rust.Room.Send.{broadcast_connection_changed}
use gb_mahjong_server_rust.Room.Send.Fanout.{fanout, change, broadcast_connection_changed-fanout}
use gb_mahjong_server_rust.Room.Parse.{ActionValidationError}
use gb_mahjong_server_rust.Room.Request.{build_validate_action_request}
use gb_mahjong_server_rust.Room.Request.Numbers.{is_in_schema}
use gb_mahjong_server_rust.Room.Request.Copied.{Asks, build_validate_action_request-copied}
use gb_mahjong_server_rust.Room.Action.{handle_command, ready, player_action}
use gb_mahjong_server_rust.Room.Action.Answer.{handle_command-unknown}
use gb_mahjong_server_rust.App.{AppState, default}
use gb_mahjong_server_rust.Ws.Socket.{SocketEvent, socket_loop, open_socket}
use gb_mahjong_server_rust.Ws.Safety.{IsSafe, socket_loop-IsSafe}
use gb_mahjong_server_rust.Tests.Data.{quiet_world, ann_room, ready_request, discard_tile}
use gb_mahjong_server_rust.Tests.Facts.{ann, ann_slot, stranger}

abbrev discard_five : PlayerActionRequest
discard_five = discard_tile (pos 5)

abbrev five : Action
five = discard (record { tile = pos 5; tsumogiri = false })

handle_command-unknown_example :
    (handle_command (ready "r2" "conn-9" ready_request) ann_room ≡ ann_room)
    × (handle_command (player_action "r2" "conn-9" discard_five) ann_room ≡ ann_room)
handle_command-unknown_example =
    handle_command-unknown "r2" "conn-9" ready_request discard_five ann_room stranger

build_validate_action_request-copied_example :
    ((is_in_schema five ≡ true)
      × (r : ValidateActionRequest) × (build_validate_action_request ann_room.state Seat.east
            discard_five
          ≡ ok r)
      × Asks ann_room.state Seat.east discard_five five r)
    ⊎ ((is_in_schema five ≡ false)
        × (e : ActionValidationError) × (build_validate_action_request ann_room.state Seat.east
              discard_five
            ≡ err e))
build_validate_action_request-copied_example =
    build_validate_action_request-copied ann_room.state Seat.east discard_five five refl

broadcast_connection_changed-fanout_example :
    let frame : ServerFrame = record {
      event_seq = ann_room.state.next_event_seq;
      payload = some (change ann_room Seat.east false ann);
    } in
    (broadcast_connection_changed Seat.east false ann_room).world.sent
    ≡ ann_room.world.sent ++ fanout frame (values ann_room.state.players_by_seat)
broadcast_connection_changed-fanout_example =
    broadcast_connection_changed-fanout Seat.east false ann ann_room ann_slot

-- A client whose payloads do not decode.
abbrev no_frame : List ℕ → Option ClientFrame
no_frame payload = none

abbrev first_app : AppState
first_app = default "closed" quiet_world

socket_loop-IsSafe_example :
    let events = SocketEvent.binary (7 ∷ []) ∷ SocketEvent.outbound true ∷ SocketEvent.close ∷ [] in
    let (task, app) = open_socket 1 first_app in
    IsSafe task.session.connection_id 1 (socket_loop no_frame events task app)
socket_loop-IsSafe_example =
    socket_loop-IsSafe no_frame
      (SocketEvent.binary (7 ∷ []) ∷ SocketEvent.outbound true ∷ SocketEvent.close ∷ []) 1 first_app
