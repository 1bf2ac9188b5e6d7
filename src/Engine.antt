-- ===== src/Engine.antt =====
-- src/engine.rs: the trait RuleEngine, the handle that the rooms hold, and the engines that the server
-- has: the one that accepts everything and the gRPC client.
pub mod Error
use gb_mahjong_server_rust.Prelude.{ℕ, Bool, String, true, none, [], Result, ok, err}
use gb_mahjong_server_rust.Prelude.Text.{◌+++◌}
use gb_mahjong_server_rust.Proto.Enum.{as_i32}
use gb_mahjong_server_rust.Proto.Engine
use gb_mahjong_server_rust.Proto.Engine.{
  ValidateActionRequest, ValidateActionResponse, CalculateScoreRequest, CalculateScoreResponse,
  validation_reject_code_enum, action_kind_enum,
}
use Error.{AnyhowError, with_context}

abbrev pub default_rule_engine_endpoint : String
default_rule_engine_endpoint = "http://127.0.0.1:50051"

-- The trait. A call may be answered in another way each time, so an engine is also given the number
-- of the call. A future that never ends is a call that `answers` denies: nothing bounds the wait of
-- the code.
pub record RuleEngine : Type 0 where
  pub answers : (call : ℕ) → Bool
  pub validate_action : ℕ → ValidateActionRequest → Result AnyhowError ValidateActionResponse
  pub calculate_score : ℕ → CalculateScoreRequest → Result AnyhowError CalculateScoreResponse

pub record RuleEngineHandle : Type 0 where
  pub inner : RuleEngine

unfoldable pub new : RuleEngine → RuleEngineHandle
new rule_engine = record { inner = rule_engine }

unfoldable pub validate_action :
    RuleEngineHandle → ℕ → ValidateActionRequest → Result AnyhowError ValidateActionResponse
validate_action handle call request = handle.inner.validate_action call request

unfoldable pub calculate_score :
    RuleEngineHandle → ℕ → CalculateScoreRequest → Result AnyhowError CalculateScoreResponse
calculate_score handle call request = handle.inner.calculate_score call request

unfoldable pub noop_validate_action :
    ℕ → ValidateActionRequest → Result AnyhowError ValidateActionResponse
noop_validate_action call request = ok (record {
  is_legal = true;
  reject_code = as_i32 Engine.ValidationRejectCode.unspecified;
  derived_action_type = as_i32 Engine.ActionKind.unspecified;
  meld_result = none;
  winning_context = none;
  suggested_follow_ups = [];
  explanation = "noop rule engine accepted action";
})

unfoldable pub noop_calculate_score :
    ℕ → CalculateScoreRequest → Result AnyhowError CalculateScoreResponse
noop_calculate_score call request =
    ok (record { total_fan = 0; fan_details = []; score_delta_by_seat = []; settlement_flags = [] })

abbrev pub noop_rule_engine : RuleEngine
noop_rule_engine = record {
  answers = λ call. true;
  validate_action = noop_validate_action;
  calculate_score = noop_calculate_score;
}

-- `RuleEngineHandle::noop`, which is also the default.
unfoldable pub noop : RuleEngineHandle
unfolding new
noop = new noop_rule_engine

-- What tonic and anyhow provide: whether an endpoint's text parses, the two calls on the channel, and
-- what a context does to an error.
pub record Tonic : Type 0 where
  pub from_shared : String → Result AnyhowError String
  pub rpc : String → RuleEngine
  pub add_context : String → AnyhowError → AnyhowError

unfoldable pub tonic_validate_action :
    Tonic → String → ℕ → ValidateActionRequest → Result AnyhowError ValidateActionResponse
tonic_validate_action lib endpoint call request =
    with_context lib.add_context ("validate action via rule engine " +++ endpoint)
      ((lib.rpc endpoint).validate_action call request)

pub tonic_calculate_score :
    Tonic → String → ℕ → CalculateScoreRequest → Result AnyhowError CalculateScoreResponse
tonic_calculate_score lib endpoint call request =
    with_context lib.add_context ("calculate score via rule engine " +++ endpoint)
      ((lib.rpc endpoint).calculate_score call request)

-- `TonicRuleEngine::new`
pub tonic_rule_engine : Tonic → String → Result AnyhowError RuleEngine
unfolding tonic_validate_action tonic_calculate_score
tonic_rule_engine lib endpoint =
    elim (with_context lib.add_context ("parse rule engine endpoint " +++ endpoint)
      (lib.from_shared endpoint)) [
        | err e ↦ err e
        | ok _ ↦ ok (record {
          answers = (lib.rpc endpoint).answers;
          validate_action = tonic_validate_action lib endpoint;
          calculate_score = tonic_calculate_score lib endpoint;
        })
      ]

-- `RuleEngineHandle::tonic`
unfoldable pub tonic : Tonic → String → Result AnyhowError RuleEngineHandle
unfolding tonic_rule_engine new
tonic lib endpoint = elim (tonic_rule_engine lib endpoint) [
  | err e ↦ err e
  | ok engine ↦ ok (new engine)
]
