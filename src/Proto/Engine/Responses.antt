-- ===== src/Proto/Engine/Responses.antt =====
-- The answer to a validation, and the scoring call (proto/engine/validation.proto,
-- proto/engine/scoring.proto).
use gb_mahjong_server_rust.Prelude.{ℕ, String, Bool, Option, List}
use gb_mahjong_server_rust.Prelude.Int.{ℤ}
use gb_mahjong_server_rust.Proto.Engine.Requests.{
  Meld, RuleConfig, RoundContext, RecentActionContext,
}

pub record MeldResult : Type 0 where
  pub meld : Option Meld
  pub consumed_tiles : List ℤ
  pub target_tile : ℤ

pub record FanDetail : Type 0 where
  pub fan_code : String
  pub fan_name : String
  pub fan_value : ℕ
  pub count : ℕ
  pub description : String

pub record WinningContext : Type 0 where
  pub win_type : ℤ
  pub winning_tile : ℤ
  pub completes_standard_hand : Bool
  pub completes_seven_pairs : Bool
  pub completes_thirteen_orphans : Bool
  pub tentative_fan_details : List FanDetail
  pub tentative_total_fan : ℕ

pub record SuggestedFollowUp : Type 0 where
  pub action_kind : ℤ
  pub claim_kind : ℤ
  pub tiles : List ℤ

pub record ValidateActionResponse : Type 0 where
  pub is_legal : Bool
  pub reject_code : ℤ
  pub derived_action_type : ℤ
  pub meld_result : Option MeldResult
  pub winning_context : Option WinningContext
  pub suggested_follow_ups : List SuggestedFollowUp
  pub explanation : String

pub record HandSnapshot : Type 0 where
  pub seat : ℤ
  pub concealed_tiles : List ℤ
  pub melds : List Meld
  pub flowers : List ℤ
  pub current_score : ℤ
  pub winner : Bool
  pub discarder : Bool

pub record SeatScoreDelta : Type 0 where
  pub seat : ℤ
  pub delta : ℤ
  pub final_total : ℤ

pub record CalculateScoreRequest : Type 0 where
  pub room_id : String
  pub match_id : String
  pub round_id : String
  pub rule_config : Option RuleConfig
  pub round_context : Option RoundContext
  pub win_type : ℤ
  pub winner_seat : ℤ
  pub discarder_seat : ℤ
  pub winning_tile : ℤ
  pub hands : List HandSnapshot
  pub settlement_flags : List ℤ
  pub terminal_action : Option RecentActionContext

pub record CalculateScoreResponse : Type 0 where
  pub total_fan : ℕ
  pub fan_details : List FanDetail
  pub score_delta_by_seat : List SeatScoreDelta
  pub settlement_flags : List ℤ
