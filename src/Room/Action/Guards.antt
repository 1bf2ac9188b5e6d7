-- ===== src/Room/Action/Guards.antt =====
-- With which code a player's action is refused (src/room.rs: handle_player_action,
-- build_candidate_action, map_validation_reject_code).
use gb_mahjong_server_rust.Prelude.{
  ◌≡◌, refl, ◌⊎◌, inl, inr, Option, none, some, [], ◌∷◌, ◌++◌, ok, ◌==◌, ◌&&◌, if◌then◌else◌,
  string_eq, Bool-cases, String, wrapping_add,
}
use gb_mahjong_server_rust.Proto.Engine.{ValidateActionRequest}
use gb_mahjong_server_rust.Proto.Client.{
  Seat, RejectCode, Action, discard, claim, declare_win, pass, supplemental_kong, auto_play_toggle,
  AutoPlayToggleAction, PlayerActionRequest,
}
use gb_mahjong_server_rust.World.{ConnectionSender, send}
use gb_mahjong_server_rust.Room.State.{RoomState, Room, round_id, seat_for_connection}
use gb_mahjong_server_rust.Room.Frames.{build_action_rejected}
use gb_mahjong_server_rust.Room.Send.{reject_target, reject_on, send_reject_to_connection}
use gb_mahjong_server_rust.Room.Request.{build_validate_action_request}
use gb_mahjong_server_rust.Room.Request.Numbers.{is_in_schema}
use gb_mahjong_server_rust.Room.Request.Copied.{
  build_validate_action_request-copied, build_validate_action_request-err,
}
use gb_mahjong_server_rust.Room.Action.{
  verdict, call_engine, reject_action, submit, act, handle_player_action,
}
use gb_mahjong_server_rust.Room.Seating.{handle_auto_play_toggle}
use gb_mahjong_server_rust.Room.Action.Answer.{refusal}
use gb_mahjong_server_rust.Room.Action.Numbers.{bad_number, candidate-Refuses}

-- One refusal with the code went to the channel, one number is used up, and the room is otherwise as
-- it was.
abbrev pub IsRefusedAs :
    RejectCode → ConnectionSender → String → PlayerActionRequest → Room → Room → Type 0
IsRefusedAs code tx request_id request r r' =
    (message : String) × (r'.state
      ≡ record r.state { next_event_seq = wrapping_add r.state.next_event_seq 1 })
    × (r'.world.sent
        ≡ r.world.sent ++ (tx, refusal r.state.next_event_seq request_id request code message) ∷ [])

-- The code of the first guard that an action does not pass; `none` for an action that goes to the
-- engine, and for a switch of the auto-play.
abbrev pub payload_guard : Option Action → Option RejectCode
payload_guard none = some RejectCode.invalid_request
payload_guard (some (auto_play_toggle toggle)) = none
payload_guard (some action) = if is_in_schema action then none else some (bad_number action)

abbrev pub guard : RoomState → PlayerActionRequest → Option RejectCode
guard s request =
    if request.match_id == s.match_id && request.round_id == round_id s
    then payload_guard request.action
    else some RejectCode.invalid_request

module _ (tx : ConnectionSender) (request_id connection_id : String) (request : PlayerActionRequest)
    (seat : Seat) (r : Room) where
  -- How the room answers, by that code.
  abbrev pub Answered : Option RejectCode → Room → Type 0
  Answered (some code) r' = IsRefusedAs code tx request_id request r r'
  Answered none r' =
      ((toggle : AutoPlayToggleAction) × (request.action ≡ some (auto_play_toggle toggle))
        × (r' ≡ handle_auto_play_toggle seat toggle.enabled r))
      ⊎ ((validate_request : ValidateActionRequest) × (build_validate_action_request r.state seat
              request
            ≡ ok validate_request)
          × IsRefusedAs (verdict (call_engine validate_request r).0).0 tx request_id request r r')

  module _ (target : reject_target r.state connection_id ≡ some tx) where
    refused_as :
        (code : RejectCode) (message : String)
        → IsRefusedAs code tx request_id request r
            (reject_action request_id connection_id request code message r)
    unfolding reject_action send_reject_to_connection reject_on send build_action_rejected
    refused_as code message = rw (target, send_reject_to_connection) (message, refl, refl)

    -- After the call of the engine.
    judged_as :
        (validate_request : ValidateActionRequest)
        → let (answer, r') = call_engine validate_request r in
          IsRefusedAs (verdict answer).0 tx request_id request r (
            reject_action request_id connection_id request (verdict answer).0 (verdict answer).1 r')
    unfolding reject_action send_reject_to_connection reject_on send build_action_rejected
        call_engine
    judged_as validate_request = rw (target, send_reject_to_connection) (_, refl, refl)

    submit-Answered :
        (action : Action)
        → request.action ≡ some action
        → Answered
            (if is_in_schema action then none else some (bad_number action))
            (submit request_id connection_id request seat r)
    unfolding submit
    submit-Answered action is_action =
        elim (build_validate_action_request-copied r.state seat request action is_action) [
          | inl (holds, _, found, _) ↦ rw (holds, found, submit) (inr (_, refl, judged_as _))
          | inr (fails, _, _) ↦
              let (message, lost) = candidate-Refuses r.state seat action fails in
              let e =
                build_validate_action_request-err r.state seat request action _ is_action lost in
              rw (fails, e, submit) (refused_as (bad_number action) message)
        ]

    act-Answered :
        (action : Option Action)
        → request.action ≡ action
        → Answered (payload_guard action) (act request_id connection_id request seat action r)
    unfolding act
    act-Answered none e = refused_as _ _
    act-Answered (some (auto_play_toggle toggle)) e = inl (toggle, e, refl)
    act-Answered (some (discard a)) e = submit-Answered (discard a) e
    act-Answered (some (claim a)) e = submit-Answered (claim a) e
    act-Answered (some (declare_win a)) e = submit-Answered (declare_win a) e
    act-Answered (some (pass a)) e = submit-Answered (pass a) e
    act-Answered (some (supplemental_kong a)) e = submit-Answered (supplemental_kong a) e

    -- An action of a seated player whose channel the room knows is refused with the code of the first
    -- guard that it does not pass: INVALID_REQUEST for another match or round, for no payload and for a
    -- seat or a kind that is not of the schema, INVALID_TILE for such a tile. One that passes them all
    -- switches the auto-play, or is put to the rule engine and refused with the code that its answer
    -- leads to.
    pub handle_player_action-Answered :
        seat_for_connection r.state connection_id ≡ some seat
        → Answered (guard r.state request) (handle_player_action request_id connection_id request r)
    unfolding handle_player_action
    handle_player_action-Answered seated =
        elim (Bool-cases (request.match_id == r.state.match_id)) [
          | inr other ↦ rw (seated, handle_player_action, other) (refused_as _ _)
          | inl same ↦ elim (Bool-cases (request.round_id == round_id r.state)) [
            | inr late ↦ rw (seated, handle_player_action, same, late) (refused_as _ _)
            | inl now ↦
                rw (seated, handle_player_action, same, now) (act-Answered request.action refl)
          ]
        ]
