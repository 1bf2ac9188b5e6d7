-- ===== src/Room/Invariant/Run.antt =====
-- Every command of a room task keeps the invariant, so it holds in every room at any time.
use gb_mahjong_server_rust.Prelude.{refl, Bool, List, [], ◌∷◌, String, if◌then◌else◌}
use gb_mahjong_server_rust.HashMap.{get}
use gb_mahjong_server_rust.Proto.Client.{
  Seat, PlayerStatus, RejectCode, SyncReason, JoinRoomRequest, ReadyRequest, ResumeSessionRequest,
  PlayerActionRequest,
}
use gb_mahjong_server_rust.Engine.{RuleEngineHandle}
use gb_mahjong_server_rust.World.{ConnectionHandle, World}
use gb_mahjong_server_rust.Room.State.{RoomState, Room, new}
use gb_mahjong_server_rust.Room.Seating.{
  handle_join, set_status, update_phase, mark_ready, handle_ready, set_auto_play,
  handle_auto_play_toggle, is_all_ready,
}
use gb_mahjong_server_rust.Room.Reconnect.{
  refuse_resume, handle_resume, drop_connection, handle_disconnect,
}
use gb_mahjong_server_rust.Room.Seating.Cases.{
  join_cases, ready_cases, resume_cases, disconnect_cases, toggle_cases,
}
use gb_mahjong_server_rust.Room.Seating.Renumber.{
  broadcast_sync_state-Renumbers, send_reject_to_connection-Renumbers, respond_join-Renumbers,
  refuse_resume-Renumbers, admit-Renumbers, accept_resume-Renumbers, leave-Renumbers,
}
use gb_mahjong_server_rust.Room.Action.{
  call_engine, reject_action, handle_player_action, RoomCommand, join, ready, resume_session,
  player_action, disconnect, handle_command, run_room_task,
}
use gb_mahjong_server_rust.Room.Action.Cases.{action_cases}
use gb_mahjong_server_rust.Room.Invariant.{IsWellFormed}
use gb_mahjong_server_rust.Room.Invariant.Slots.{Renumbers-IsWellFormed}
use gb_mahjong_server_rust.Room.Invariant.Update.{
  attach-IsWellFormed, detach-IsWellFormed, set_auto_play-IsWellFormed,
  drop_connection-IsWellFormed, set_status-IsWellFormed,
}
use gb_mahjong_server_rust.Room.Invariant.Join.{seat_player-IsWellFormed}

pub new-IsWellFormed :
    (room_id : String) (engine : RuleEngineHandle) → IsWellFormed (new room_id engine)
unfolding new get is_all_ready
new-IsWellFormed room_id engine = record {
  seated = λ user_id seat e. cc;
  filed = λ seat p e. cc;
  routed = λ connection_id user_id e. cc;
  distinct = tt;
  phased = refl;
  table_size = refl;
}

abbrev Holds : Room → Type 0
Holds r = IsWellFormed r.state

module _ (r : Room) (v : IsWellFormed r.state) where
  handle_join-IsWellFormed :
      (request_id : String) (connection : ConnectionHandle) (request : JoinRoomRequest)
      → Holds (handle_join request_id connection request r)
  handle_join-IsWellFormed request_id connection request =
      join_cases Holds r request_id connection request
        (λ seat _.
          Renumbers-IsWellFormed r.state v _
            (respond_join-Renumbers request_id connection _ _ _ _ _ r))
        (λ _ _.
          Renumbers-IsWellFormed r.state v _
            (respond_join-Renumbers request_id connection _ _ _ _ _ r))
        (λ seat fresh free.
          Renumbers-IsWellFormed _
            (seat_player-IsWellFormed r.state v request connection seat fresh free) _
            (admit-Renumbers request_id connection request seat r))

  mark_ready-IsWellFormed : (seat : Seat) (is_ready : Bool) → Holds (mark_ready seat is_ready r)
  unfolding mark_ready
  mark_ready-IsWellFormed seat is_ready =
      let status = if is_ready then PlayerStatus.ready else PlayerStatus.joined in
      let marked : RoomState = update_phase (set_status seat status r.state) in
      Renumbers-IsWellFormed marked (set_status-IsWellFormed r.state v seat status) _
        (broadcast_sync_state-Renumbers _ (record r { state = marked }))

  pub handle_ready-IsWellFormed :
      (request_id connection_id : String) (request : ReadyRequest)
      → Holds (handle_ready request_id connection_id request r)
  handle_ready-IsWellFormed request_id connection_id request =
      ready_cases Holds r request_id connection_id request
        (λ _.
          Renumbers-IsWellFormed r.state v _
            (send_reject_to_connection-Renumbers connection_id request_id _ _ 0 0 r))
        (λ seat _. mark_ready-IsWellFormed seat request.ready)

  handle_resume-IsWellFormed :
      (request_id : String) (connection : ConnectionHandle) (request : ResumeSessionRequest)
      → Holds (handle_resume request_id connection request r)
  handle_resume-IsWellFormed request_id connection request =
      resume_cases Holds r request_id connection request (λ _. refused _ _) (λ _ _ _. refused _ _)
        (λ _ _ _ _ _. refused _ _)
        (λ seat player _ there _.
          Renumbers-IsWellFormed _ (attach-IsWellFormed r.state v connection seat player there) _
            (accept_resume-Renumbers connection seat player r))
    where
      refused :
          (reject_code : RejectCode) (message : String)
          → Holds (refuse_resume request_id connection request reject_code message r)
      refused reject_code message =
          Renumbers-IsWellFormed r.state v _
            (refuse_resume-Renumbers request_id connection request reject_code message r)

  handle_disconnect-IsWellFormed :
      (connection_id : String) → Holds (handle_disconnect connection_id r)
  unfolding drop_connection
  handle_disconnect-IsWellFormed connection_id =
      let dropped = drop_connection-IsWellFormed r.state v connection_id in
      disconnect_cases Holds r connection_id (λ _. v) (λ _ _. dropped)
        (λ user_id seat player _ _ there.
          Renumbers-IsWellFormed _
            (detach-IsWellFormed (drop_connection connection_id r.state) dropped seat player there)
            _
            (leave-Renumbers seat player
              (record r { state = drop_connection connection_id r.state })))

  handle_auto_play_toggle-IsWellFormed :
      (seat : Seat) (enabled : Bool) → Holds (handle_auto_play_toggle seat enabled r)
  handle_auto_play_toggle-IsWellFormed seat enabled =
      toggle_cases Holds r seat enabled (λ _. v)
        (λ player there.
          let set : RoomState = set_auto_play seat enabled player r.state in
          Renumbers-IsWellFormed set
            (set_auto_play-IsWellFormed r.state v seat enabled player there) _
            (broadcast_sync_state-Renumbers SyncReason.server_resync (record r { state = set })))

  handle_player_action-IsWellFormed :
      (request_id connection_id : String) (request : PlayerActionRequest)
      → Holds (handle_player_action request_id connection_id request r)
  unfolding call_engine reject_action
  handle_player_action-IsWellFormed request_id connection_id request =
      action_cases Holds r request_id connection_id request
        (λ code message.
          Renumbers-IsWellFormed r.state v _
            (send_reject_to_connection-Renumbers connection_id request_id code message _ _ r))
        (λ seat validate_request _. Renumbers-IsWellFormed r.state v _ (
          send_reject_to_connection-Renumbers connection_id request_id _ _ _ _
            (call_engine validate_request r).1))
        (λ seat toggle _ _. handle_auto_play_toggle-IsWellFormed seat toggle.enabled)

-- Every command, accepted or refused, leaves a well-formed room well-formed.
pub handle_command-IsWellFormed :
    (command : RoomCommand) (r : Room)
    → IsWellFormed r.state
    → IsWellFormed (handle_command command r).state
unfolding handle_command
handle_command-IsWellFormed (join request_id connection request) r v =
    handle_join-IsWellFormed r v request_id connection request
handle_command-IsWellFormed (ready request_id connection_id request) r v =
    handle_ready-IsWellFormed r v request_id connection_id request
handle_command-IsWellFormed (resume_session request_id connection request) r v =
    handle_resume-IsWellFormed r v request_id connection request
handle_command-IsWellFormed (player_action request_id connection_id request) r v =
    handle_player_action-IsWellFormed r v request_id connection_id request
handle_command-IsWellFormed (disconnect connection_id) r v =
    handle_disconnect-IsWellFormed r v connection_id

pub run_room_task-keeps-IsWellFormed :
    (commands : List RoomCommand) (r : Room)
    → IsWellFormed r.state
    → IsWellFormed (run_room_task commands r).state
unfolding run_room_task
run_room_task-keeps-IsWellFormed [] r v = v
run_room_task-keeps-IsWellFormed (command ∷ commands) r v =
    run_room_task-keeps-IsWellFormed commands (handle_command command r)
      (handle_command-IsWellFormed command r v)

-- The tables of a new room's task are well-formed after any commands: users, seats and connections point
-- at one another, a slot has a connection exactly while it is marked as connected, and the phase is
-- that of the players' readiness.
pub run_room_task-IsWellFormed :
    (room_id : String) (engine : RuleEngineHandle) (w : World) (commands : List RoomCommand)
    → let r : Room = record { state = new room_id engine; world = w } in
      IsWellFormed (run_room_task commands r).state
run_room_task-IsWellFormed room_id engine w commands =
    run_room_task-keeps-IsWellFormed commands (record { state = new room_id engine; world = w })
      (new-IsWellFormed room_id engine)
