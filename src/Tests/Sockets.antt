-- ===== src/Tests/Sockets.antt =====
-- A connection that sends a text frame and is shown the refusal (src/ws.rs: handle_socket).
use gb_mahjong_server_rust.Prelude.{ℕ, ◌≡◌, refl, true, none, List, [], Option, length}
use gb_mahjong_server_rust.Proto.Client.{ClientFrame}
use gb_mahjong_server_rust.World
use gb_mahjong_server_rust.World.{send}
use gb_mahjong_server_rust.Manager.{with_rule_engine}
use gb_mahjong_server_rust.App.{
  AppState, default, with_room_manager, allocate_connection_id, next_event_seq,
}
use gb_mahjong_server_rust.Ws.Session.{
  new, with_outbound, handle, send_frame, build_action_rejected,
}
use gb_mahjong_server_rust.Ws.Frame.{refuse}
use gb_mahjong_server_rust.Ws.Socket.{
  SocketEvent, SocketTask, Flow, continue, break, panic, proceed, receive_outbound, socket_step,
  open_socket, channel,
}
use gb_mahjong_server_rust.Ws.Fifo.{IsFaithful, Reaches, opened, round, Reaches-IsFaithful}
use gb_mahjong_server_rust.Tests.Data.{quiet_world}

abbrev no_frame : List ℕ → Option ClientFrame
no_frame payload = none

abbrev start : AppState
start = default "closed" quiet_world

abbrev task_of : Flow → SocketTask
task_of (continue task app) = task
task_of (break task app) = task
task_of panic = (open_socket 1 start).0

abbrev app_of : Flow → AppState
app_of (continue task app) = app
app_of (break task app) = app
app_of panic = start

abbrev asked : Flow
asked = socket_step no_frame SocketEvent.text (open_socket 1 start).0 (open_socket 1 start).1

abbrev answered : Flow
answered = socket_step no_frame (SocketEvent.outbound true) (task_of asked) (app_of asked)

start_fresh : channel 1 start.room_manager.world ≡ []
unfolding default with_room_manager with_rule_engine
start_fresh = refl

asked_continues : asked ≡ continue (task_of asked) (app_of asked)
unfolding socket_step proceed refuse build_action_rejected next_event_seq send_frame handle
    open_socket allocate_connection_id new with_outbound default with_room_manager with_rule_engine
    World.send_frame send
asked_continues = refl

answered_continues : answered ≡ continue (task_of answered) (app_of answered)
unfolding socket_step proceed receive_outbound refuse build_action_rejected next_event_seq
    send_frame handle open_socket allocate_connection_id new with_outbound default with_room_manager
    with_rule_engine World.send_frame send
answered_continues = refl

answered_wire : length (task_of answered).wire ≡ 1
unfolding socket_step proceed receive_outbound refuse build_action_rejected next_event_seq
    send_frame handle open_socket allocate_connection_id new with_outbound default with_room_manager
    with_rule_engine World.send_frame send
answered_wire = refl

answered_reached : Reaches no_frame 1 start (task_of answered) (app_of answered)
answered_reached =
    round (SocketEvent.outbound true) answered_continues
      (round SocketEvent.text asked_continues opened)

Reaches-IsFaithful_example : IsFaithful (task_of answered) (app_of answered)
Reaches-IsFaithful_example =
    Reaches-IsFaithful no_frame 1 start (task_of answered) (app_of answered) start_fresh
      answered_reached
