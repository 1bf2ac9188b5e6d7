-- ===== src/Room/Request/Recent.antt =====
-- src/room.rs: build_recent_action_context.
use gb_mahjong_server_rust.Prelude.{
  true, false, Option, none, some, Result, ok, ◌>>=◌, ◌==◌, nat_eq,
}
use gb_mahjong_server_rust.Proto.Enum.{as_i32}
use gb_mahjong_server_rust.Proto.Client.{
  Seat, ClaimKind, WinType, Action, discard, claim, declare_win, pass, supplemental_kong,
  auto_play_toggle, claim_kind_eq, win_type_eq,
}
use gb_mahjong_server_rust.Proto.Engine
use gb_mahjong_server_rust.Proto.Engine.{
  seat_enum, tile_enum, action_kind_enum, RecentActionContext, ClaimWindowContext, RuleConfig,
  RoundContext, EnginePlayerState, ValidateActionRequest,
}
use gb_mahjong_server_rust.Room.State.{RoomState, current_event_seq}
use gb_mahjong_server_rust.Room.Parse.{
  seat_value, no_tile, no_seat, ActionValidationError, parse_client_claim_kind,
  parse_client_win_type, parse_client_seat_value, parse_client_tile_value,
  derive_claim_trigger_action, derive_win_trigger_action,
}

unfoldable pub build_recent_action_context :
    RoomState → Seat → Action → Result ActionValidationError (Option RecentActionContext)
unfolding current_event_seq
build_recent_action_context s actor_seat (discard a) = do
  source_tile ← parse_client_tile_value a.tile
  ok (
      some (record {
        source_event_seq = current_event_seq s;
        source_seat = seat_value actor_seat;
        source_action_kind = as_i32 Engine.ActionKind.draw;
        source_tile = source_tile;
        replacement_draw = false;
        rob_kong_candidate = false;
      }))
build_recent_action_context s actor_seat (claim a) = do
  source_seat ← parse_client_seat_value a.source_seat
  source_tile ← parse_client_tile_value a.target_tile
  claim_kind ← parse_client_claim_kind a.claim_kind
  ok (
      some (record {
        source_event_seq = a.source_event_seq;
        source_seat = source_seat;
        source_action_kind = as_i32 (derive_claim_trigger_action a.claim_kind);
        source_tile = source_tile;
        replacement_draw = false;
        rob_kong_candidate = claim_kind == ClaimKind.rob_kong_win;
      }))
build_recent_action_context s actor_seat (declare_win a) = do
  source_seat ← parse_client_seat_value a.source_seat
  source_tile ← parse_client_tile_value a.winning_tile
  win_type ← parse_client_win_type a.win_type
  ok (
      some (record {
        source_event_seq = a.source_event_seq;
        source_seat = source_seat;
        source_action_kind = as_i32 (derive_win_trigger_action a.win_type);
        source_tile = source_tile;
        replacement_draw = win_type == WinType.kong_draw;
        rob_kong_candidate = win_type == WinType.rob_kong;
      }))
build_recent_action_context s actor_seat (pass a) = ok (
    some (record {
      source_event_seq = a.source_event_seq;
      source_seat = no_seat;
      source_action_kind = as_i32 Engine.ActionKind.unspecified;
      source_tile = no_tile;
      replacement_draw = false;
      rob_kong_candidate = false;
    }))
build_recent_action_context s actor_seat (supplemental_kong a) = do
  source_tile ← parse_client_tile_value a.tile
  ok (
      some (record {
        source_event_seq = current_event_seq s;
        source_seat = seat_value actor_seat;
        source_action_kind = as_i32 Engine.ActionKind.supplemental_kong;
        source_tile = source_tile;
        replacement_draw = false;
        rob_kong_candidate = true;
      }))
build_recent_action_context s actor_seat (auto_play_toggle a) = ok none
