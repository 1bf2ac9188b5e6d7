-- ===== src/Tests/Closing.antt =====
-- A socket that closes while a join still waits in the channel of its room (src/ws.rs: handle_socket).
use gb_mahjong_server_rust.Prelude.{
  ℕ, ◌+◌, ◌≡◌, refl, true, some, none, List, [], Option, length, arith, string_eq, nat_eq,
}
use gb_mahjong_server_rust.HashMap.{get, insert}
use gb_mahjong_server_rust.Engine.{noop}
use gb_mahjong_server_rust.Room.State.{Room}
use gb_mahjong_server_rust.Manager.Drain.{IsDrained, turns}
use gb_mahjong_server_rust.Manager.Calls.Sound.{started}
use gb_mahjong_server_rust.Manager.Calls.Channels.{reached-IsSound}
use gb_mahjong_server_rust.Manager.{with_rule_engine}
use gb_mahjong_server_rust.App.{AppState, with_room_manager}
use gb_mahjong_server_rust.Proto.Client.{ClientFrame}
use gb_mahjong_server_rust.Ws.Socket.{SocketEvent, SocketTask, channel, close_socket}
use gb_mahjong_server_rust.Ws.Connections.{
  Connections, connect, receive, began, connected, received,
}
use gb_mahjong_server_rust.Ws.Connections.Held.{IsHeld}
use gb_mahjong_server_rust.Ws.Connections.Reached.{Meets-IsHeld}
use gb_mahjong_server_rust.Ws.Closing.{Departs, close_socket-Departs}
use gb_mahjong_server_rust.Tests.Data.{quiet_world}
use gb_mahjong_server_rust.Tests.Calls.{
  one_handled, worked, worked-reached, first_task, first_task-there,
}

-- A client whose payloads do not decode.
abbrev no_frame : List ℕ → Option ClientFrame
no_frame payload = none

abbrev socket : SocketTask
socket = record {
  session = record {
    connection_id = "conn-1";
    outbound_tx = some 1;
    current_room_id = some "alpha";
  };
  outbound_rx = 1;
  received = 0;
  wire = [];
}

abbrev app : AppState
app = record { next_connection_id = 3; next_event_seq = 1; room_manager = worked.manager }

alpha_listed : get "alpha" worked.manager.rooms ≡ some 0
unfolding worked started with_rule_engine get insert noop
alpha_listed = refl

close_socket-Departs_example :
    (r' : Room) × IsDrained 0 worked.manager r'
      (turns (length first_task.queue + 1) 0 (close_socket socket app).room_manager)
    × Departs socket app "alpha" 0 first_task refl alpha_listed first_task-there r'
close_socket-Departs_example =
    close_socket-Departs socket app "alpha" 0 first_task refl alpha_listed first_task-there
      (reached-IsSound noop "channel closed" quiet_world one_handled worked
        worked-reached).registered

-- A connection that is opened, sends a text and is answered.
abbrev first_state : AppState
first_state = with_room_manager (with_rule_engine noop "closed" quiet_world)

abbrev one_open : Connections
one_open = connect 1 (record { app = first_state; open_sockets = [] })

unsent : channel 1 first_state.room_manager.world ≡ []
unfolding with_room_manager with_rule_engine
unsent = refl

Meets-IsHeld_example :
    IsHeld 1 (
      receive no_frame 0 (SocketEvent.outbound true) (receive no_frame 0 SocketEvent.text one_open))
Meets-IsHeld_example =
    Meets-IsHeld no_frame noop "closed" quiet_world 1
      (receive no_frame 0 (SocketEvent.outbound true)
        (receive no_frame 0 SocketEvent.text one_open))
      (omega arith)
      (received 0 (SocketEvent.outbound true)
        (received 0 SocketEvent.text (connected 1 unsent tt began)))
