-- ===== src/Room/Action.antt =====
-- A player's action, and the task's loop over its commands (src/room.rs: handle_player_action,
-- handle_command, run_room_task).
pub mod Cases
pub mod Answer
pub mod Numbers
pub mod Guards
use gb_mahjong_server_rust.Prelude.{
  ◌+◌, Option, none, some, List, [], ◌∷◌, String, Result, ok, err, ◌==◌, not, string_eq,
  if◌then◌else◌,
}
use gb_mahjong_server_rust.Prelude.Int.{ℤ}
use gb_mahjong_server_rust.Prelude.Text.{◌+++◌}
use gb_mahjong_server_rust.Prelude.Decimal.{show_ℤ}
use gb_mahjong_server_rust.Proto.Enum.{as_str_name, try_from}
use gb_mahjong_server_rust.Proto.Client.{
  Seat, RejectCode, Action, auto_play_toggle, discard, JoinRoomRequest, ReadyRequest,
  ResumeSessionRequest, PlayerActionRequest,
}
use gb_mahjong_server_rust.Proto.Engine
use gb_mahjong_server_rust.Proto.Engine.{
  ValidateActionRequest, ValidateActionResponse, action_kind_enum,
}
use gb_mahjong_server_rust.Engine.Error.{AnyhowError}
use gb_mahjong_server_rust.Engine.{validate_action}
use gb_mahjong_server_rust.World.{ConnectionHandle}
use gb_mahjong_server_rust.Room.State.{Room, seat_for_connection, round_id}
use gb_mahjong_server_rust.Room.Send.{send_reject_to_connection}
use gb_mahjong_server_rust.Room.Seating.{handle_join, handle_ready, handle_auto_play_toggle}
use gb_mahjong_server_rust.Room.Reconnect.{handle_resume, handle_disconnect}
use gb_mahjong_server_rust.Room.Parse.{map_validation_reject_code}
use gb_mahjong_server_rust.Room.Request.{build_validate_action_request}

pub derived_action_name : ℤ → String
unfolding try_from show_ℤ
derived_action_name kind = elim (try_from {A = Engine.ActionKind} kind) [
  | none ↦ "ACTION_KIND_UNKNOWN_" +++ show_ℤ kind
  | some k ↦ as_str_name k
]

-- The refusal that an answer of the rule engine leads to; a legal action is not applied yet.
pub verdict : Result AnyhowError ValidateActionResponse → RejectCode × String
unfolding derived_action_name map_validation_reject_code
verdict (ok response) =
    if response.is_legal
    then (
      RejectCode.action_not_available,
      "action validated via rule engine as "
          +++ derived_action_name response.derived_action_type
          +++ "; applying validated actions lands in a later task",
    )
    else (map_validation_reject_code response.reject_code, response.explanation)
verdict (err error) =
    (RejectCode.internal_error, "rule engine validation RPC failed: " +++ error.display)

-- `self.rule_engine.validate_action(request).await`, one more call in the world.
unfoldable pub call_engine :
    ValidateActionRequest → Room → Result AnyhowError ValidateActionResponse × Room
unfolding validate_action
call_engine request r = (
  validate_action r.state.rule_engine r.world.calls request,
  record r { world = record r.world { calls = r.world.calls + 1 } },
)

-- Every refusal of an action shows the client its own expected number and window.
unfoldable pub reject_action :
    String → String → PlayerActionRequest → RejectCode → String → Room → Room
reject_action request_id connection_id request reject_code message r =
    send_reject_to_connection connection_id request_id reject_code message
      request.expected_event_seq request.action_window_id r

-- The action goes to the rule engine, and its answer back to the client.
pub submit : String → String → PlayerActionRequest → Seat → Room → Room
unfolding call_engine
submit request_id connection_id request seat r =
    elim (build_validate_action_request r.state seat request) [
      | err error ↦ reject_action request_id connection_id request error.reject_code error.message r
      | ok validate_request ↦
          let (answer, r') = call_engine validate_request r in
          reject_action request_id connection_id request (verdict answer).0 (verdict answer).1 r'
    ]

-- The match on the action's payload.
unfoldable pub act : String → String → PlayerActionRequest → Seat → Option Action → Room → Room
act request_id connection_id request seat none r =
    reject_action request_id connection_id request RejectCode.invalid_request
      "player action payload must be set" r
act request_id connection_id request seat (some (auto_play_toggle toggle)) r =
    handle_auto_play_toggle seat toggle.enabled r
act request_id connection_id request seat (some _) r =
    submit request_id connection_id request seat r

unfoldable pub handle_player_action : String → String → PlayerActionRequest → Room → Room
unfolding round_id
handle_player_action request_id connection_id request r =
    elim (seat_for_connection r.state connection_id) [
      | none ↦
          reject_action request_id connection_id request RejectCode.not_in_room
            "connection is not registered in this room" r
      | some seat ↦
          if not (request.match_id == r.state.match_id)
          then reject_action request_id connection_id request RejectCode.invalid_request
              ("match_id " +++ request.match_id +++ " does not match active room match "
                +++ r.state.match_id)
              r
          else if not (request.round_id == round_id r.state)
          then reject_action request_id connection_id request RejectCode.invalid_request
              ("round_id "
                +++ request.round_id
                +++ " does not match active round "
                +++ round_id r.state)
              r
          else act request_id connection_id request seat request.action r
    ]

pub data RoomCommand : Type 0 where
  join : (request_id : String) → ConnectionHandle → JoinRoomRequest → RoomCommand
  ready : (request_id connection_id : String) → ReadyRequest → RoomCommand
  resume_session : (request_id : String) → ConnectionHandle → ResumeSessionRequest → RoomCommand
  player_action : (request_id connection_id : String) → PlayerActionRequest → RoomCommand
  disconnect : (connection_id : String) → RoomCommand

unfoldable pub handle_command : RoomCommand → Room → Room
handle_command (join request_id connection request) r = handle_join request_id connection request r
handle_command (ready request_id connection_id request) r =
    handle_ready request_id connection_id request r
handle_command (resume_session request_id connection request) r =
    handle_resume request_id connection request r
handle_command (player_action request_id connection_id request) r =
    handle_player_action request_id connection_id request r
handle_command (disconnect connection_id) r = handle_disconnect connection_id r

-- `while let Some(command) = command_rx.recv().await`, over the commands that arrive until the
-- channel closes.
unfoldable pub run_room_task : List RoomCommand → Room → Room
run_room_task [] r = r
run_room_task (command ∷ commands) r = run_room_task commands (handle_command command r)
