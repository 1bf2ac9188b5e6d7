-- ===== src/Room/Lobby/Refines.antt =====
-- A room task against its lobby (src/room.rs: handle_command, run_room_task).
use gb_mahjong_server_rust.Prelude.{◌≡◌, refl, ap, ◌∙◌, List, [], ◌∷◌, String, string_eq}
use gb_mahjong_server_rust.Prelude.Text.{◌+++◌}
use gb_mahjong_server_rust.HashMap.{get}
use gb_mahjong_server_rust.Engine.{RuleEngineHandle}
use gb_mahjong_server_rust.World.{World}
use gb_mahjong_server_rust.Room.State.{Room, new, round_id, seat_for_connection}
use gb_mahjong_server_rust.Room.Action.{
  RoomCommand, join, ready, resume_session, player_action, disconnect, handle_command,
  run_room_task,
}
use gb_mahjong_server_rust.Room.Invariant.{IsWellFormed}
use gb_mahjong_server_rust.Room.Invariant.Run.{new-IsWellFormed, handle_command-IsWellFormed}
use gb_mahjong_server_rust.Room.Lobby.{empty_lobby, lobby_step, lobby_steps}
use gb_mahjong_server_rust.Room.Lobby.View.{view}
use gb_mahjong_server_rust.Room.Lobby.Actions.{handle_player_action-view}
use gb_mahjong_server_rust.Room.Lobby.Steps.{
  handle_join-view, handle_ready-view, handle_resume-view, handle_disconnect-view,
}

-- What a command leaves of a well-formed room is the lobby's step.
handle_command-refines :
    (command : RoomCommand) (r : Room)
    → IsWellFormed r.state
    → view (handle_command command r).state ≡ lobby_step command (view r.state)
unfolding handle_command
handle_command-refines (join request_id connection request) r v =
    handle_join-view r v request_id connection request
handle_command-refines (ready request_id connection_id request) r v =
    handle_ready-view r v request_id connection_id request
handle_command-refines (resume_session request_id connection request) r v =
    handle_resume-view r v request_id connection request
handle_command-refines (player_action request_id connection_id request) r v =
    handle_player_action-view r v request_id connection_id request
handle_command-refines (disconnect connection_id) r v = handle_disconnect-view r v connection_id

run_room_task-follows :
    (commands : List RoomCommand) (r : Room)
    → IsWellFormed r.state
    → view (run_room_task commands r).state ≡ lobby_steps commands (view r.state)
unfolding run_room_task lobby_steps
run_room_task-follows [] r v = refl
run_room_task-follows (command ∷ commands) r v =
    run_room_task-follows commands (handle_command command r)
      (handle_command-IsWellFormed command r v)
    ∙ ap (lobby_steps commands) (handle_command-refines command r v)

new-view :
    (room_id : String) (engine : RuleEngineHandle)
    → view (new room_id engine) ≡ empty_lobby room_id ("match-" +++ room_id) "hand-1"
unfolding new get round_id seat_for_connection
new-view room_id engine = refl

-- The tables of a new room's task, after any commands, stand for the lobby that the same commands make
-- of an empty one, step by step: who sits where with which status and switch, who is away, and which
-- connection stands for which seat. A join takes the first free seat, unless its user has one; a
-- disconnect keeps the seat; a return with the right token moves it to the new connection; a refused
-- command, and an action that is no switch, leaves everything as it was.
pub run_room_task-refines :
    (room_id : String) (engine : RuleEngineHandle) (w : World) (commands : List RoomCommand)
    → let r : Room = record { state = new room_id engine; world = w } in
      view (run_room_task commands r).state
      ≡ lobby_steps commands (empty_lobby room_id ("match-" +++ room_id) "hand-1")
run_room_task-refines room_id engine w commands =
    run_room_task-follows commands (record { state = new room_id engine; world = w })
      (new-IsWellFormed room_id engine)
    ∙ ap (lobby_steps commands) (new-view room_id engine)
