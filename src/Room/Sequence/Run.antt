-- ===== src/Room/Sequence/Run.antt =====
-- The numbers of a whole run (src/room.rs: run_room_task).
use gb_mahjong_server_rust.Prelude.{
  ◌+◌, ◌≤◌, ◌<◌, List, [], ◌∷◌, ◌*◌, length, string_eq, arith, u64_mod,
}
use gb_mahjong_server_rust.Proto.Client.{seat_eq}
use gb_mahjong_server_rust.Room.State.{Room}
use gb_mahjong_server_rust.Room.Seating.{handle_ready}
use gb_mahjong_server_rust.Room.Reconnect.{handle_resume, handle_disconnect}
use gb_mahjong_server_rust.Room.Action.{
  handle_player_action, RoomCommand, join, ready, resume_session, player_action, disconnect,
  handle_command, run_room_task,
}
use gb_mahjong_server_rust.Room.Sequence.Order.{IsSequenced}
use gb_mahjong_server_rust.Room.Sequence.Steps.{Takes, Takes-mono}
use gb_mahjong_server_rust.Room.Sequence.Handlers.{
  handle_join-Takes, handle_ready-Takes, handle_resume-Takes, handle_disconnect-Takes,
  handle_player_action-Takes,
}

-- Every command takes at most three numbers.
pub handle_command-Takes : (command : RoomCommand) → Takes 3 (handle_command command)
unfolding handle_command
handle_command-Takes (join request_id connection request) =
    handle_join-Takes request_id connection request
handle_command-Takes (ready request_id connection_id request) =
    Takes-mono 1 3 (handle_ready request_id connection_id request) (omega arith)
      (handle_ready-Takes request_id connection_id request)
handle_command-Takes (resume_session request_id connection request) =
    Takes-mono 2 3 (handle_resume request_id connection request) (omega arith)
      (handle_resume-Takes request_id connection request)
handle_command-Takes (player_action request_id connection_id request) =
    Takes-mono 1 3 (handle_player_action request_id connection_id request) (omega arith)
      (handle_player_action-Takes request_id connection_id request)
handle_command-Takes (disconnect connection_id) =
    Takes-mono 2 3 (handle_disconnect connection_id) (omega arith)
      (handle_disconnect-Takes connection_id)

-- If the frames that a room has sent are numbered in the order in which they were sent, all below the
-- next number, then the same holds after any commands, as long as the 64-bit counter does not wrap
-- around: a command takes three numbers at most.
pub run_room_task-IsSequenced :
    (commands : List RoomCommand) (r : Room)
    → IsSequenced r
    → r.state.next_event_seq + 3 * length commands < u64_mod
    → IsSequenced (run_room_task commands r)
      × ((run_room_task commands r).state.next_event_seq
          ≤ r.state.next_event_seq + 3 * length commands)
unfolding run_room_task
run_room_task-IsSequenced [] r v room = (v, omega arith)
run_room_task-IsSequenced (command ∷ commands) r v room =
    let (v', bound) = handle_command-Takes command r v (omega arith) in
    let (v'', bound') =
      run_room_task-IsSequenced commands (handle_command command r) v' (omega arith) in
    (v'', omega arith)
