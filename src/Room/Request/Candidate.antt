-- ===== src/Room/Request/Candidate.antt =====
-- src/room.rs: build_candidate_action.
use gb_mahjong_server_rust.Prelude.{[], Result, ok, err, ◌>>=◌, collect, nat_eq}
use gb_mahjong_server_rust.Proto.Enum.{as_i32}
use gb_mahjong_server_rust.Proto.Client.{
  Seat, RejectCode, Action, discard, claim, declare_win, pass, supplemental_kong, auto_play_toggle,
  claim_kind_eq, win_type_eq,
}
use gb_mahjong_server_rust.Proto.Engine
use gb_mahjong_server_rust.Proto.Engine.{
  seat_enum, tile_enum, action_kind_enum, RecentActionContext, ClaimWindowContext, RuleConfig,
  RoundContext, EnginePlayerState, ValidateActionRequest,
}
use gb_mahjong_server_rust.Room.State.{RoomState, current_event_seq}
use gb_mahjong_server_rust.Room.Parse.{
  seat_value, ActionValidationError, parse_client_seat_value, parse_client_tile_value,
  parse_client_claim_kind_value, parse_client_win_type_value,
}

unfoldable pub build_candidate_action :
    RoomState → Seat → Action → Result ActionValidationError Engine.Action
unfolding current_event_seq
build_candidate_action s actor_seat (discard a) = do
  tile ← parse_client_tile_value a.tile
  ok (Engine.Action.discard (record { tile = tile; tsumogiri = a.tsumogiri }))
build_candidate_action s actor_seat (claim a) = do
  claim_kind ← parse_client_claim_kind_value a.claim_kind
  target_tile ← parse_client_tile_value a.target_tile
  consume_tiles ← collect parse_client_tile_value a.consume_tiles
  source_seat ← parse_client_seat_value a.source_seat
  ok (
      Engine.Action.claim (record {
        claim_kind = claim_kind;
        target_tile = target_tile;
        consume_tiles = consume_tiles;
        source_seat = source_seat;
        source_event_seq = a.source_event_seq;
      }))
build_candidate_action s actor_seat (declare_win a) = do
  win_type ← parse_client_win_type_value a.win_type
  winning_tile ← parse_client_tile_value a.winning_tile
  source_seat ← parse_client_seat_value a.source_seat
  ok (
      Engine.Action.declare_win (record {
        win_type = win_type;
        winning_tile = winning_tile;
        source_seat = source_seat;
        source_event_seq = a.source_event_seq;
      }))
build_candidate_action s actor_seat (pass a) =
    ok (Engine.Action.pass (record { source_event_seq = a.source_event_seq }))
build_candidate_action s actor_seat (supplemental_kong a) = do
  tile ← parse_client_tile_value a.tile
  ok (
      Engine.Action.kong (record {
        kong_kind = as_i32 Engine.ActionKind.supplemental_kong;
        tile = tile;
        consume_tiles = [];
        source_seat = seat_value actor_seat;
        source_event_seq = current_event_seq s;
      }))
build_candidate_action s actor_seat (auto_play_toggle a) = err (record {
  reject_code = RejectCode.action_not_available;
  message = "auto play toggles are handled locally and do not go through the rule engine";
})
