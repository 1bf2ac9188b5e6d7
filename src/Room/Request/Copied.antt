-- ===== src/Room/Request/Copied.antt =====
-- What the rule engine is asked (src/room.rs: build_validate_action_request, build_candidate_action).
use gb_mahjong_server_rust.Prelude.{
  ◌-◌, string_eq, ◌≡◌, refl, ◌⊎◌, inl, inr, true, false, some, [], ok, err, nat_eq,
}
use gb_mahjong_server_rust.Prelude.Text.{◌+++◌}
use gb_mahjong_server_rust.Prelude.Decimal.{show_ℕ}
use gb_mahjong_server_rust.Proto.Enum.{as_i32}
use gb_mahjong_server_rust.Proto.Client.{
  Seat, Action, discard, claim, declare_win, pass, supplemental_kong, auto_play_toggle,
  PlayerActionRequest, claim_kind_eq, win_type_eq,
}
use gb_mahjong_server_rust.Proto.Engine
use gb_mahjong_server_rust.Proto.Engine.{
  RecentActionContext, ClaimWindowContext, ValidateActionRequest, action_kind_enum,
}
use gb_mahjong_server_rust.Room.State.{RoomState, current_event_seq, round_id}
use gb_mahjong_server_rust.Room.Parse.{ActionValidationError, seat_value}
use gb_mahjong_server_rust.Room.Request.{validate_request, build_validate_action_request}
use gb_mahjong_server_rust.Room.Request.Candidate.{build_candidate_action}
use gb_mahjong_server_rust.Room.Request.Judged.{
  Judged, Judged-ok, Judged-bind, tile-Judged, seat-Judged, claim_kind-Judged, win_type-Judged,
  tiles-Judged,
}
use gb_mahjong_server_rust.Room.Request.Numbers.{is_in_schema}
use gb_mahjong_server_rust.Room.Request.Opened.{recent_for, recent_ok, window_of, window_ok}

-- The action with its numbers as they came.
abbrev pub copied : RoomState → Seat → Action → Engine.Action
copied s actor_seat (discard a) =
    Engine.Action.discard (record { tile = a.tile; tsumogiri = a.tsumogiri })
copied s actor_seat (claim a) = Engine.Action.claim (record {
  claim_kind = a.claim_kind;
  target_tile = a.target_tile;
  consume_tiles = a.consume_tiles;
  source_seat = a.source_seat;
  source_event_seq = a.source_event_seq;
})
copied s actor_seat (declare_win a) = Engine.Action.declare_win (record {
  win_type = a.win_type;
  winning_tile = a.winning_tile;
  source_seat = a.source_seat;
  source_event_seq = a.source_event_seq;
})
copied s actor_seat (pass a) = Engine.Action.pass (record { source_event_seq = a.source_event_seq })
copied s actor_seat (supplemental_kong a) = Engine.Action.kong (record {
  kong_kind = as_i32 Engine.ActionKind.supplemental_kong;
  tile = a.tile;
  consume_tiles = [];
  source_seat = seat_value actor_seat;
  source_event_seq = current_event_seq s;
})
copied s actor_seat (auto_play_toggle a) = Engine.Action.pass (record { source_event_seq = 0 })

candidate-Judged :
    (s : RoomState) (actor_seat : Seat) (action : Action)
    → Judged
        (is_in_schema action)
        (build_candidate_action s actor_seat action)
        (copied s actor_seat action)
unfolding build_candidate_action
candidate-Judged s actor_seat (discard a) =
    Judged-bind _ true _ a.tile _ _ (tile-Judged a.tile) (Judged-ok _)
candidate-Judged s actor_seat (claim a) =
    Judged-bind _ _ _ a.claim_kind _ _ (claim_kind-Judged a.claim_kind) (
      Judged-bind _ _ _ a.target_tile _ _ (tile-Judged a.target_tile) (
        Judged-bind _ _ _ a.consume_tiles _ _ (tiles-Judged a.consume_tiles)
          (Judged-bind _ true _ a.source_seat _ _ (seat-Judged a.source_seat) (Judged-ok _))))
candidate-Judged s actor_seat (declare_win a) =
    Judged-bind _ _ _ a.win_type _ _ (win_type-Judged a.win_type) (
      Judged-bind _ _ _ a.winning_tile _ _ (tile-Judged a.winning_tile)
        (Judged-bind _ true _ a.source_seat _ _ (seat-Judged a.source_seat) (Judged-ok _)))
candidate-Judged s actor_seat (pass a) = Judged-ok _
candidate-Judged s actor_seat (supplemental_kong a) =
    Judged-bind _ true _ a.tile _ _ (tile-Judged a.tile) (Judged-ok _)
candidate-Judged s actor_seat (auto_play_toggle a) = inr (refl, _, refl)

-- The first number that is refused decides.
pub build_validate_action_request-err :
    (s : RoomState) (actor_seat : Seat) (request : PlayerActionRequest) (action : Action)
    (e : ActionValidationError)
    → request.action ≡ some action
    → build_candidate_action s actor_seat action ≡ err e
    → build_validate_action_request s actor_seat request ≡ err e
unfolding build_validate_action_request
build_validate_action_request-err s actor_seat request action e is_action lost =
    rw (is_action, build_validate_action_request, lost) refl

-- What the request says of the room, the player and the action.
pub record Asks (s : RoomState) (seat : Seat) (request : PlayerActionRequest) (action : Action)
    (r : ValidateActionRequest) : Type 0 where
  pub same_room : r.room_id ≡ s.room_id
  pub same_match : r.match_id ≡ s.match_id
  pub same_round : r.round_id ≡ "hand-" +++ show_ℕ s.hand_number
  pub last_number : r.server_event_seq ≡ s.next_event_seq - 1
  pub own_seat : r.actor_seat ≡ seat_value seat
  pub candidate : r.candidate_action ≡ some (record { action = some (copied s seat action) })
  pub recent : r.recent_action ≡ recent_for s seat action
  pub window : r.claim_window ≡ window_of s seat request action

-- A player's action becomes a request to the rule engine exactly when each of its tiles, seats and
-- kinds is a number of the schema, and it is no auto-play toggle. The request then names the room, its
-- match and its round, the last number that the room has given and the player's seat. It carries the
-- action with its numbers as they came, and the event that the action answers: its number, seat, kind
-- and tile, and whether it followed a kong or robs one. If the client names a window, that window goes
-- along, opened by the same event and open to the player's seat alone; otherwise there is none.
pub build_validate_action_request-copied :
    (s : RoomState) (actor_seat : Seat) (request : PlayerActionRequest) (action : Action)
    → request.action ≡ some action
    → ((is_in_schema action ≡ true)
        × (r : ValidateActionRequest) × (build_validate_action_request s actor_seat request ≡ ok r)
        × Asks s actor_seat request action r)
      ⊎ ((is_in_schema action ≡ false)
          × (e : ActionValidationError) × (build_validate_action_request s actor_seat request
              ≡ err e))
unfolding build_validate_action_request validate_request round_id current_event_seq
build_validate_action_request-copied s actor_seat request action is_action =
    elim (candidate-Judged s actor_seat action) [
      | inr (fails, e, lost) ↦
          inr (fails, e, rw (is_action, build_validate_action_request, lost) refl)
      | inl (holds, found) ↦
          let e = recent_ok s actor_seat action holds in
          let e' = window_ok s actor_seat request action holds in
          inl (
            holds,
            validate_request s actor_seat (copied s actor_seat action)
                (recent_for s actor_seat action) (window_of s actor_seat request action),
            rw (is_action, build_validate_action_request, found, e, e') refl,
            record {
              same_room = refl;
              same_match = refl;
              same_round = refl;
              last_number = refl;
              own_seat = refl;
              candidate = refl;
              recent = refl;
              window = refl;
            },
          )
    ]
