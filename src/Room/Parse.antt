-- ===== src/Room/Parse.antt =====
-- From the client's enumerations to the engine's (src/room.rs: the functions map_*, parse_client_* and
-- derive_*). A variant is carried over by its name in the schema.
pub mod Agreement
pub mod Kinds
use gb_mahjong_server_rust.Prelude.{String, none, some, unwrap_or, Result, ok, err, ◌>>=◌}
use gb_mahjong_server_rust.Prelude.Int.{ℤ}
use gb_mahjong_server_rust.Prelude.Text.{◌+++◌}
use gb_mahjong_server_rust.Prelude.Decimal.{show_ℤ}
use gb_mahjong_server_rust.Proto.Enum.{ProtoEnum, as_i32, as_str_name, from_str_name, try_from}
use gb_mahjong_server_rust.Proto.Client
use gb_mahjong_server_rust.Proto.Client.{
  RejectCode, seat_enum as client_seat, tile_enum as client_tile,
  claim_kind_enum as client_claim_kind, win_type_enum as client_win_type,
}
use gb_mahjong_server_rust.Proto.Engine
use gb_mahjong_server_rust.Proto.Engine.{
  seat_enum as engine_seat, tile_enum as engine_tile, claim_kind_enum as engine_claim_kind,
  win_type_enum as engine_win_type, validation_reject_code_enum,
}

pub record ActionValidationError : Type 0 where
  pub reject_code : RejectCode
  pub message : String

pub map_seat_to_engine : Client.Seat → Engine.Seat
unfolding from_str_name
map_seat_to_engine seat = unwrap_or (from_str_name (as_str_name seat)) Engine.Seat.unspecified

pub map_tile_to_engine : Client.Tile → Engine.Tile
unfolding from_str_name
map_tile_to_engine tile = unwrap_or (from_str_name (as_str_name tile)) Engine.Tile.unspecified

pub map_claim_kind_to_engine : Client.ClaimKind → Engine.ClaimKind
unfolding from_str_name
map_claim_kind_to_engine claim_kind =
    unwrap_or (from_str_name (as_str_name claim_kind)) Engine.ClaimKind.unspecified

pub map_win_type_to_engine : Client.WinType → Engine.WinType
unfolding from_str_name
map_win_type_to_engine win_type =
    unwrap_or (from_str_name (as_str_name win_type)) Engine.WinType.unspecified

-- `T::try_from(value).map_err(..)`, the body that the four parsers share.
pub parse_client :
    {A : Type 0} ⦃e : ProtoEnum A⦄ → RejectCode → String → ℤ → Result ActionValidationError A
parse_client reject_code what value = elim (try_from value) [
  | none ↦ err (record { reject_code = reject_code; message = what +++ show_ℤ value })
  | some a ↦ ok a
]

pub parse_client_seat : ℤ → Result ActionValidationError Client.Seat
unfolding parse_client
parse_client_seat = parse_client RejectCode.invalid_request "unknown seat enum value "

pub parse_client_tile : ℤ → Result ActionValidationError Client.Tile
unfolding parse_client
parse_client_tile = parse_client RejectCode.invalid_tile "unknown tile enum value "

pub parse_client_claim_kind : ℤ → Result ActionValidationError Client.ClaimKind
unfolding parse_client
parse_client_claim_kind = parse_client RejectCode.invalid_request "unknown claim kind enum value "

pub parse_client_win_type : ℤ → Result ActionValidationError Client.WinType
unfolding parse_client
parse_client_win_type = parse_client RejectCode.invalid_request "unknown win type enum value "

pub parse_client_seat_value : ℤ → Result ActionValidationError ℤ
unfolding parse_client_seat map_seat_to_engine
parse_client_seat_value seat = do s ← parse_client_seat seat; ok (as_i32 (map_seat_to_engine s))

pub parse_client_tile_value : ℤ → Result ActionValidationError ℤ
unfolding parse_client_tile map_tile_to_engine
parse_client_tile_value tile = do t ← parse_client_tile tile; ok (as_i32 (map_tile_to_engine t))

unfoldable pub parse_client_claim_kind_value : ℤ → Result ActionValidationError ℤ
unfolding parse_client_claim_kind map_claim_kind_to_engine
parse_client_claim_kind_value claim_kind = do
  k ← parse_client_claim_kind claim_kind
  ok (as_i32 (map_claim_kind_to_engine k))

unfoldable pub parse_client_win_type_value : ℤ → Result ActionValidationError ℤ
unfolding parse_client_win_type map_win_type_to_engine
parse_client_win_type_value win_type = do
  t ← parse_client_win_type win_type
  ok (as_i32 (map_win_type_to_engine t))

claim_trigger : Client.ClaimKind → Engine.ActionKind
claim_trigger Client.ClaimKind.rob_kong_win = Engine.ActionKind.supplemental_kong
claim_trigger Client.ClaimKind.unspecified = Engine.ActionKind.discard
claim_trigger Client.ClaimKind.chi = Engine.ActionKind.discard
claim_trigger Client.ClaimKind.peng = Engine.ActionKind.discard
claim_trigger Client.ClaimKind.exposed_kong = Engine.ActionKind.discard
claim_trigger Client.ClaimKind.discard_win = Engine.ActionKind.discard

win_trigger : Client.WinType → Engine.ActionKind
win_trigger Client.WinType.self_draw = Engine.ActionKind.draw
win_trigger Client.WinType.discard = Engine.ActionKind.discard
win_trigger Client.WinType.rob_kong = Engine.ActionKind.supplemental_kong
win_trigger Client.WinType.kong_draw = Engine.ActionKind.draw
win_trigger Client.WinType.unspecified = Engine.ActionKind.unspecified

abbrev or_unspecified : {A : Type 0} → Result ActionValidationError A → A → A
or_unspecified (ok a) d = a
or_unspecified (err e) d = d

unfoldable pub derive_claim_trigger_action : ℤ → Engine.ActionKind
unfolding claim_trigger parse_client_claim_kind
derive_claim_trigger_action claim_kind =
    claim_trigger (or_unspecified (parse_client_claim_kind claim_kind) Client.ClaimKind.unspecified)

unfoldable pub derive_win_trigger_action : ℤ → Engine.ActionKind
unfolding win_trigger parse_client_win_type
derive_win_trigger_action win_type =
    win_trigger (or_unspecified (parse_client_win_type win_type) Client.WinType.unspecified)

rejection_for : Engine.ValidationRejectCode → RejectCode
rejection_for Engine.ValidationRejectCode.unspecified = RejectCode.rule_validation_failed
rejection_for Engine.ValidationRejectCode.invalid_context = RejectCode.invalid_request
rejection_for Engine.ValidationRejectCode.tile_not_owned = RejectCode.invalid_tile
rejection_for Engine.ValidationRejectCode.tile_not_available = RejectCode.invalid_tile
rejection_for Engine.ValidationRejectCode.meld_not_formable = RejectCode.rule_validation_failed
rejection_for Engine.ValidationRejectCode.hand_not_complete = RejectCode.rule_validation_failed
rejection_for Engine.ValidationRejectCode.ruleset_violation = RejectCode.rule_validation_failed
rejection_for Engine.ValidationRejectCode.action_window_mismatch = RejectCode.action_window_closed
rejection_for Engine.ValidationRejectCode.internal_error = RejectCode.internal_error

unfoldable pub map_validation_reject_code : ℤ → RejectCode
unfolding rejection_for try_from
map_validation_reject_code reject_code =
    rejection_for (unwrap_or (try_from reject_code) Engine.ValidationRejectCode.unspecified)

-- A message field with the value of an engine enumeration.
abbrev pub seat_value : Client.Seat → ℤ
seat_value seat = as_i32 (map_seat_to_engine seat)

abbrev pub no_tile : ℤ
no_tile = as_i32 Engine.Tile.unspecified

abbrev pub no_seat : ℤ
no_seat = as_i32 Engine.Seat.unspecified
