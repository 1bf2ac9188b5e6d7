-- ===== src/Proto/Client/Frames.antt =====
-- What the server sends (proto/client/session.proto, proto/client/common/types.proto). Of the frame's
-- payloads only those that the server builds are here: it has no code yet for action broadcasts,
-- prompts and settlements.
use gb_mahjong_server_rust.Prelude.{ℕ, String, Bool, Option, List}
use gb_mahjong_server_rust.Prelude.Int.{ℤ}

pub record RoomConfig : Type 0 where
  pub ruleset_id : String
  pub seat_count : ℕ
  pub enable_flower_tiles : Bool
  pub enable_robbing_kong : Bool
  pub enable_kong_draw : Bool
  pub reconnect_grace_seconds : ℕ
  pub action_timeout_ms : ℕ

pub record Meld : Type 0 where
  pub kind : ℤ
  pub tiles : List ℤ
  pub from_seat : ℤ
  pub claimed_tile : ℤ
  pub concealed : Bool
  pub source_event_seq : ℕ

pub record DiscardTile : Type 0 where
  pub tile : ℤ
  pub turn_index : ℕ
  pub claimed : Bool
  pub drawn_and_discarded : Bool
  pub source_event_seq : ℕ

pub record PlayerState : Type 0 where
  pub user_id : String
  pub display_name : String
  pub seat : ℤ
  pub status : ℤ
  pub score : ℤ
  pub is_dealer : Bool
  pub is_connected : Bool
  pub auto_play_enabled : Bool
  pub concealed_tile_count : ℕ
  pub melds : List Meld
  pub discards : List DiscardTile
  pub flowers : List ℤ
  pub replacement_draw_count : ℕ

pub record SelfHandState : Type 0 where
  pub concealed_tiles : List ℤ
  pub drawn_tile : ℤ

pub record PromptOption : Type 0 where
  pub option_id : String
  pub action_kind : ℤ
  pub claim_kind : ℤ
  pub win_type : ℤ
  pub candidate_tiles : List ℤ
  pub consume_tiles : List ℤ

pub record ClaimWindow : Type 0 where
  pub action_window_id : ℕ
  pub source_event_seq : ℕ
  pub source_seat : ℤ
  pub target_tile : ℤ
  pub trigger_action_kind : ℤ
  pub eligible_seats : List ℤ
  pub options : List PromptOption
  pub deadline_unix_ms : ℕ

pub record GameSnapshot : Type 0 where
  pub room_config : Option RoomConfig
  pub phase : ℤ
  pub self_seat : ℤ
  pub prevailing_wind : ℤ
  pub dealer_seat : ℤ
  pub current_turn_seat : ℤ
  pub hand_number : ℕ
  pub dealer_streak : ℕ
  pub wall_tiles_remaining : ℕ
  pub dead_wall_tiles_remaining : ℕ
  pub latest_event_seq : ℕ
  pub players : List PlayerState
  pub self_hand : Option SelfHandState
  pub active_claim_window : Option ClaimWindow
  pub action_deadline_unix_ms : ℕ

pub record SyncState : Type 0 where
  pub room_id : String
  pub match_id : String
  pub round_id : String
  pub reason : ℤ
  pub server_time_ms : ℕ
  pub snapshot : Option GameSnapshot

pub record JoinRoomResponse : Type 0 where
  pub request_id : String
  pub accepted : Bool
  pub reject_code : ℤ
  pub room_id : String
  pub match_id : String
  pub seat : ℤ
  pub connection_id : String
  pub resume_token : String
  pub room_config : Option RoomConfig
  pub message : String
  pub latest_event_seq : ℕ

pub record ActionRejected : Type 0 where
  pub request_id : String
  pub reject_code : ℤ
  pub message : String
  pub expected_event_seq : ℕ
  pub actual_event_seq : ℕ
  pub action_window_id : ℕ

pub record PlayerConnectionChanged : Type 0 where
  pub room_id : String
  pub match_id : String
  pub user_id : String
  pub seat : ℤ
  pub status : ℤ
  pub connected : Bool
  pub reconnect_deadline_unix_ms : ℕ

pub record Pong : Type 0 where
  pub request_id : String
  pub server_time_ms : ℕ
  pub echoed_client_time_ms : ℕ
  pub latest_event_seq : ℕ

pub data ServerPayload : Type 0 where
  join_room : JoinRoomResponse → ServerPayload
  sync_state : SyncState → ServerPayload
  action_rejected : ActionRejected → ServerPayload
  player_connection_changed : PlayerConnectionChanged → ServerPayload
  pong : Pong → ServerPayload

pub record ServerFrame : Type 0 where
  pub event_seq : ℕ
  pub payload : Option ServerPayload
