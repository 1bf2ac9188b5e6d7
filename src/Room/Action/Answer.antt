-- ===== src/Room/Action/Answer.antt =====
-- How a player's action is answered (src/room.rs: handle_player_action, handle_ready,
-- send_reject_to_connection).
use gb_mahjong_server_rust.Prelude.{
  ℕ, ◌≡◌, refl, sym, ◌∙◌, inl, inr, none, some, String, string_eq, Option-cases,
}
use gb_mahjong_server_rust.HashMap.{get}
use gb_mahjong_server_rust.Proto.Enum.{as_i32}
use gb_mahjong_server_rust.Proto.Client.{
  RejectCode, PlayerActionRequest, ReadyRequest, ServerFrame, ServerPayload, seat_eq,
  reject_code_enum,
}
use gb_mahjong_server_rust.Room.State.{Room, RoomState, seat_for_connection}
use gb_mahjong_server_rust.Room.Send.{reject_target, send_reject_to_connection}
use gb_mahjong_server_rust.Room.Seating.{handle_ready}
use gb_mahjong_server_rust.Room.Action.{
  reject_action, handle_player_action, handle_command, ready, player_action,
}

-- The frame that refuses the request under the number.
abbrev pub refusal : ℕ → String → PlayerActionRequest → RejectCode → String → ServerFrame
refusal seq request_id request reject_code message = record {
  event_seq = seq;
  payload = some (
      ServerPayload.action_rejected (record {
        request_id = request_id;
        reject_code = as_i32 reject_code;
        message = message;
        expected_event_seq = request.expected_event_seq;
        actual_event_seq = seq;
        action_window_id = request.action_window_id;
      }));
}

reject_target-unknown :
    (connection_id : String) (s : RoomState)
    → seat_for_connection s connection_id ≡ none
    → reject_target s connection_id ≡ none
unfolding seat_for_connection reject_target
reject_target-unknown connection_id s unknown =
    elim (Option-cases (get connection_id s.connection_to_user)) [
      | inl e ↦ rw (e, reject_target)
      | inr (user_id, e) ↦
          let gone : get user_id s.user_to_seat ≡ none = sym (elim_known user_id e) ∙ unknown in
          rw (e, reject_target, gone)
    ]
  where
    elim_known :
        (user_id : String)
        → get connection_id s.connection_to_user ≡ some user_id
        → seat_for_connection s connection_id ≡ get user_id s.user_to_seat
    elim_known user_id e = rw (e, seat_for_connection)

-- A ready request or an action of a connection that has no seat is dropped without an answer: the
-- refusal is addressed by the table in which the connection is missing. Nothing in the room changes
-- and nothing is sent.
pub handle_command-unknown :
    (request_id connection_id : String) (ready_request : ReadyRequest)
    (request : PlayerActionRequest) (r : Room)
    → seat_for_connection r.state connection_id ≡ none
    → (handle_command (ready request_id connection_id ready_request) r ≡ r)
      × (handle_command (player_action request_id connection_id request) r ≡ r)
unfolding handle_command handle_ready handle_player_action send_reject_to_connection reject_action
handle_command-unknown request_id connection_id ready_request request r unknown =
    let target = reject_target-unknown connection_id r.state unknown in
    (
      rw (unknown, handle_ready, target, send_reject_to_connection) refl,
      rw (unknown, handle_player_action, target, send_reject_to_connection) refl,
    )
