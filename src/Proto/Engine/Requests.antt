-- ===== src/Proto/Engine/Requests.antt =====
-- The request to validate an action (proto/engine/validation.proto, proto/engine/common/types.proto).
use gb_mahjong_server_rust.Prelude.{ℕ, String, Bool, Option, List}
use gb_mahjong_server_rust.Prelude.Int.{ℤ}

pub record RuleConfig : Type 0 where
  pub ruleset_id : String
  pub seat_count : ℕ
  pub enable_flower_tiles : Bool
  pub enable_robbing_kong : Bool
  pub enable_kong_draw : Bool
  pub enable_last_tile_bonus : Bool
  pub base_points : ℕ

pub record RoundContext : Type 0 where
  pub prevailing_wind : ℤ
  pub dealer_seat : ℤ
  pub current_turn_seat : ℤ
  pub hand_number : ℕ
  pub dealer_streak : ℕ
  pub wall_tiles_remaining : ℕ
  pub dead_wall_tiles_remaining : ℕ
  pub replacement_draw_pending : Bool
  pub is_last_tile : Bool

pub record Meld : Type 0 where
  pub kind : ℤ
  pub tiles : List ℤ
  pub from_seat : ℤ
  pub claimed_tile : ℤ
  pub concealed : Bool
  pub source_event_seq : ℕ

pub record DiscardTile : Type 0 where
  pub tile : ℤ
  pub turn_index : ℕ
  pub claimed : Bool
  pub drawn_and_discarded : Bool
  pub source_event_seq : ℕ

pub record EnginePlayerState : Type 0 where
  pub seat : ℤ
  pub current_score : ℤ
  pub concealed_tile_count : ℕ
  pub melds : List Meld
  pub discards : List DiscardTile
  pub flowers : List ℤ

pub record PrivateHandContext : Type 0 where
  pub concealed_tiles : List ℤ
  pub drawn_tile : ℤ

pub record RecentActionContext : Type 0 where
  pub source_event_seq : ℕ
  pub source_seat : ℤ
  pub source_action_kind : ℤ
  pub source_tile : ℤ
  pub replacement_draw : Bool
  pub rob_kong_candidate : Bool

pub record ClaimWindowContext : Type 0 where
  pub action_window_id : ℕ
  pub source_event_seq : ℕ
  pub source_seat : ℤ
  pub target_tile : ℤ
  pub trigger_action_kind : ℤ
  pub eligible_seats : List ℤ

pub record DiscardAction : Type 0 where
  pub tile : ℤ
  pub tsumogiri : Bool

pub record ClaimAction : Type 0 where
  pub claim_kind : ℤ
  pub target_tile : ℤ
  pub consume_tiles : List ℤ
  pub source_seat : ℤ
  pub source_event_seq : ℕ

pub record DeclareWinAction : Type 0 where
  pub win_type : ℤ
  pub winning_tile : ℤ
  pub source_seat : ℤ
  pub source_event_seq : ℕ

pub record PassAction : Type 0 where
  pub source_event_seq : ℕ

pub record KongAction : Type 0 where
  pub kong_kind : ℤ
  pub tile : ℤ
  pub consume_tiles : List ℤ
  pub source_seat : ℤ
  pub source_event_seq : ℕ

pub record ReplaceFlowerAction : Type 0 where
  pub flowers : List ℤ

pub data Action : Type 0 where
  discard : DiscardAction → Action
  claim : ClaimAction → Action
  declare_win : DeclareWinAction → Action
  pass : PassAction → Action
  kong : KongAction → Action
  replace_flower : ReplaceFlowerAction → Action

pub record CandidateAction : Type 0 where
  pub action : Option Action

pub record ValidateActionRequest : Type 0 where
  pub room_id : String
  pub match_id : String
  pub round_id : String
  pub server_event_seq : ℕ
  pub rule_config : Option RuleConfig
  pub round_context : Option RoundContext
  pub actor_seat : ℤ
  pub candidate_action : Option CandidateAction
  pub recent_action : Option RecentActionContext
  pub players : List EnginePlayerState
  pub actor_private_hand : Option PrivateHandContext
  pub claim_window : Option ClaimWindowContext
