-- ===== src/Room/State.antt =====
-- The state of a room task (src/room.rs: RoomState, PlayerSlot) and the small functions that read it.
use gb_mahjong_server_rust.Prelude.{
  ℕ, ◌-◌, ◌/◌, Bool, true, Option, none, some, List, [], ◌∷◌, String, not, string_eq, find,
  wrapping_add,
}
use gb_mahjong_server_rust.Prelude.Int.{ℤ, pos}
use gb_mahjong_server_rust.Prelude.Text.{◌+++◌}
use gb_mahjong_server_rust.Prelude.Decimal.{show_ℕ}
use gb_mahjong_server_rust.HashMap.{HashMap, empty, get, contains_key}
use gb_mahjong_server_rust.Proto.Client.{Seat, GamePhase, PlayerStatus, RoomConfig, seat_eq}
use gb_mahjong_server_rust.Engine.{RuleEngineHandle}
use gb_mahjong_server_rust.World.{ConnectionSender, World}

abbrev pub reconnect_grace_ms : ℕ
reconnect_grace_ms = 30000

abbrev pub initial_score : ℤ
initial_score = pos 25000

abbrev pub seat_order : List Seat
seat_order = Seat.east ∷ Seat.south ∷ Seat.west ∷ Seat.north ∷ []

pub record PlayerSlot : Type 0 where
  pub user_id : String
  pub display_name : String
  pub seat : Seat
  pub status : PlayerStatus
  pub score : ℤ
  pub connected : Bool
  pub auto_play_enabled : Bool
  pub connection_id : Option String
  pub outbound_tx : Option ConnectionSender
  pub resume_token : String

pub record RoomState : Type 0 where
  pub rule_engine : RuleEngineHandle
  pub room_id : String
  pub match_id : String
  pub room_config : RoomConfig
  pub phase : GamePhase
  pub prevailing_wind : Seat
  pub dealer_seat : Seat
  pub current_turn_seat : Seat
  pub hand_number : ℕ
  pub dealer_streak : ℕ
  pub wall_tiles_remaining : ℕ
  pub dead_wall_tiles_remaining : ℕ
  pub next_event_seq : ℕ
  pub players_by_seat : HashMap Seat PlayerSlot
  pub user_to_seat : HashMap String Seat
  pub connection_to_user : HashMap String String

-- A room task with the world around it: a handler takes one to the next.
pub record Room : Type 0 where
  pub state : RoomState
  pub world : World

abbrev pub default_room_config : RoomConfig
default_room_config = record {
  ruleset_id = "gb_mahjong_cn_v1";
  seat_count = 4;
  enable_flower_tiles = true;
  enable_robbing_kong = true;
  enable_kong_draw = true;
  reconnect_grace_seconds = reconnect_grace_ms / 1000;
  action_timeout_ms = 15000;
}

unfoldable pub new : String → RuleEngineHandle → RoomState
new room_id rule_engine = record {
  rule_engine = rule_engine;
  room_id = room_id;
  match_id = "match-" +++ room_id;
  room_config = default_room_config;
  phase = GamePhase.lobby;
  prevailing_wind = Seat.east;
  dealer_seat = Seat.east;
  current_turn_seat = Seat.east;
  hand_number = 1;
  dealer_streak = 0;
  wall_tiles_remaining = 144;
  dead_wall_tiles_remaining = 14;
  next_event_seq = 1;
  players_by_seat = empty;
  user_to_seat = empty;
  connection_to_user = empty;
}

unfoldable pub next_open_seat : RoomState → Option Seat
next_open_seat s = find (λ seat. not (contains_key seat s.players_by_seat)) seat_order

unfoldable pub seat_for_connection : RoomState → String → Option Seat
seat_for_connection s connection_id = elim (get connection_id s.connection_to_user) [
  | none ↦ none
  | some user_id ↦ get user_id s.user_to_seat
]

-- `self.next_event_seq += 1` wraps in a release build.
unfoldable pub allocate_event_seq : RoomState → ℕ × RoomState
allocate_event_seq s =
    (s.next_event_seq, record s { next_event_seq = wrapping_add s.next_event_seq 1 })

-- `saturating_sub(1)`
unfoldable pub current_event_seq : RoomState → ℕ
current_event_seq s = s.next_event_seq - 1

unfoldable pub round_id : RoomState → String
unfolding show_ℕ
round_id s = "hand-" +++ show_ℕ s.hand_number
