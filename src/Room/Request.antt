-- ===== src/Room/Request.antt =====
-- The request to the rule engine (src/room.rs: build_validate_action_request, build_engine_rule_config,
-- build_engine_round_context, build_engine_player_states).
pub mod Judged
pub mod Numbers
pub mod Opened
pub mod Copied
pub mod Consistent
pub mod Candidate
pub mod Recent
pub mod Window
use gb_mahjong_server_rust.Prelude.{
  ℕ, Bool, true, false, Option, none, some, List, [], ◌∷◌, map, String, Result, ok, err, ◌>>=◌,
  collect, ◌==◌, nat_eq, leb, if◌then◌else◌,
}
use gb_mahjong_server_rust.Prelude.Int.{ℤ}
use gb_mahjong_server_rust.Proto.Enum.{as_i32}
use gb_mahjong_server_rust.Proto.Client
use gb_mahjong_server_rust.Proto.Client.{
  Seat, ClaimKind, WinType, RejectCode, Action, discard, claim, declare_win, pass,
  supplemental_kong, auto_play_toggle, PlayerActionRequest, claim_kind_eq, win_type_eq,
}
use gb_mahjong_server_rust.Proto.Engine
use gb_mahjong_server_rust.Proto.Engine.{
  seat_enum, tile_enum, action_kind_enum, RecentActionContext, ClaimWindowContext, RuleConfig,
  RoundContext, EnginePlayerState, ValidateActionRequest,
}
use gb_mahjong_server_rust.Room.State.{PlayerSlot, RoomState, current_event_seq, round_id}
use gb_mahjong_server_rust.Room.Frames.{players_in_order}
use gb_mahjong_server_rust.Room.Parse.{
  seat_value, no_tile, no_seat, ActionValidationError, map_seat_to_engine, parse_client_claim_kind,
  parse_client_win_type, parse_client_seat_value, parse_client_tile_value,
  parse_client_claim_kind_value, parse_client_win_type_value, derive_claim_trigger_action,
  derive_win_trigger_action,
}
use Candidate.{build_candidate_action}
use Recent.{build_recent_action_context}
use Window.{build_claim_window_context}

pub build_engine_rule_config : RoomState → RuleConfig
build_engine_rule_config s = record {
  ruleset_id = s.room_config.ruleset_id;
  seat_count = s.room_config.seat_count;
  enable_flower_tiles = s.room_config.enable_flower_tiles;
  enable_robbing_kong = s.room_config.enable_robbing_kong;
  enable_kong_draw = s.room_config.enable_kong_draw;
  enable_last_tile_bonus = true;
  base_points = 0;
}

pub build_engine_round_context : RoomState → RoundContext
build_engine_round_context s = record {
  prevailing_wind = seat_value s.prevailing_wind;
  dealer_seat = seat_value s.dealer_seat;
  current_turn_seat = seat_value s.current_turn_seat;
  hand_number = s.hand_number;
  dealer_streak = s.dealer_streak;
  wall_tiles_remaining = s.wall_tiles_remaining;
  dead_wall_tiles_remaining = s.dead_wall_tiles_remaining;
  replacement_draw_pending = false;
  is_last_tile = leb s.wall_tiles_remaining 1;
}

abbrev pub engine_player_state : PlayerSlot → EnginePlayerState
engine_player_state player = record {
  seat = seat_value player.seat;
  current_score = player.score;
  concealed_tile_count = 0;
  melds = [];
  discards = [];
  flowers = [];
}

pub build_engine_player_states : RoomState → List EnginePlayerState
build_engine_player_states s = map engine_player_state (players_in_order s)

-- The request once its three parts that may be refused are built.
pub validate_request :
    RoomState
    → Seat
    → Engine.Action
    → Option RecentActionContext
    → Option ClaimWindowContext
    → ValidateActionRequest
unfolding current_event_seq round_id build_engine_rule_config build_engine_round_context
    build_engine_player_states
validate_request s actor_seat candidate recent_action claim_window = record {
  room_id = s.room_id;
  match_id = s.match_id;
  round_id = round_id s;
  server_event_seq = current_event_seq s;
  rule_config = some (build_engine_rule_config s);
  round_context = some (build_engine_round_context s);
  actor_seat = seat_value actor_seat;
  candidate_action = some (record { action = some candidate });
  recent_action = recent_action;
  players = build_engine_player_states s;
  actor_private_hand = some (record { concealed_tiles = []; drawn_tile = no_tile });
  claim_window = claim_window;
}

pub build_validate_action_request :
    RoomState → Seat → PlayerActionRequest → Result ActionValidationError ValidateActionRequest
unfolding build_candidate_action build_recent_action_context build_claim_window_context
    validate_request
build_validate_action_request s actor_seat request = elim request.action [
  | none ↦ err (record {
    reject_code = RejectCode.invalid_request;
    message = "player action payload must be set";
  })
  | some action ↦ do
    candidate ← build_candidate_action s actor_seat action
    recent_action ← build_recent_action_context s actor_seat action
    claim_window ← build_claim_window_context s actor_seat request action
    ok (validate_request s actor_seat candidate recent_action claim_window)
]
