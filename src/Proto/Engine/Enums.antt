-- ===== src/Proto/Engine/Enums.antt =====
-- The enumerations of proto/engine/common/enums.proto: Seat, ActionKind, ValidationRejectCode.
use gb_mahjong_server_rust.Prelude.{ℕ, ◌≡◌, refl, String, some, List, [], ◌∷◌, PartialEq}
use gb_mahjong_server_rust.Proto.Enum.{ProtoEnum, enum_eq, numbered}

pub data Seat : Type 0 where
  unspecified east south west north : Seat

abbrev seat_variants : List Seat
seat_variants = Seat.unspecified ∷ Seat.east ∷ Seat.south ∷ Seat.west ∷ Seat.north ∷ []

unfoldable pub seat_number : Seat → ℕ
seat_number Seat.unspecified = 0
seat_number Seat.east = 1
seat_number Seat.south = 2
seat_number Seat.west = 3
seat_number Seat.north = 4

unfoldable pub seat_str_name : Seat → String
seat_str_name Seat.unspecified = "SEAT_UNSPECIFIED"
seat_str_name Seat.east = "SEAT_EAST"
seat_str_name Seat.south = "SEAT_SOUTH"
seat_str_name Seat.west = "SEAT_WEST"
seat_str_name Seat.north = "SEAT_NORTH"

pub seat_found : (a : Seat) → numbered seat_number (seat_number a) seat_variants ≡ some a
unfolding seat_number
seat_found Seat.unspecified = refl
seat_found _ = refl

instance abbrev pub seat_enum : ProtoEnum Seat
seat_enum = record {
  variants = seat_variants;
  number = seat_number;
  str_name = seat_str_name;
  found = seat_found;
}

instance abbrev pub seat_eq : PartialEq Seat
seat_eq = enum_eq

pub data ActionKind : Type 0 where
  unspecified draw discard chi peng exposed_kong concealed_kong supplemental_kong : ActionKind
  declare_win pass replace_flower : ActionKind

abbrev action_kind_variants : List ActionKind
action_kind_variants =
    ActionKind.unspecified ∷ ActionKind.draw ∷ ActionKind.discard ∷ ActionKind.chi ∷ ActionKind.peng
    ∷ ActionKind.exposed_kong ∷ ActionKind.concealed_kong ∷ ActionKind.supplemental_kong
    ∷ ActionKind.declare_win ∷ ActionKind.pass ∷ ActionKind.replace_flower ∷ []

pub action_kind_number : ActionKind → ℕ
action_kind_number ActionKind.unspecified = 0
action_kind_number ActionKind.draw = 1
action_kind_number ActionKind.discard = 2
action_kind_number ActionKind.chi = 3
action_kind_number ActionKind.peng = 4
action_kind_number ActionKind.exposed_kong = 5
action_kind_number ActionKind.concealed_kong = 6
action_kind_number ActionKind.supplemental_kong = 7
action_kind_number ActionKind.declare_win = 8
action_kind_number ActionKind.pass = 9
action_kind_number ActionKind.replace_flower = 10

unfoldable pub action_kind_str_name : ActionKind → String
action_kind_str_name ActionKind.unspecified = "ACTION_KIND_UNSPECIFIED"
action_kind_str_name ActionKind.draw = "ACTION_KIND_DRAW"
action_kind_str_name ActionKind.discard = "ACTION_KIND_DISCARD"
action_kind_str_name ActionKind.chi = "ACTION_KIND_CHI"
action_kind_str_name ActionKind.peng = "ACTION_KIND_PENG"
action_kind_str_name ActionKind.exposed_kong = "ACTION_KIND_EXPOSED_KONG"
action_kind_str_name ActionKind.concealed_kong = "ACTION_KIND_CONCEALED_KONG"
action_kind_str_name ActionKind.supplemental_kong = "ACTION_KIND_SUPPLEMENTAL_KONG"
action_kind_str_name ActionKind.declare_win = "ACTION_KIND_DECLARE_WIN"
action_kind_str_name ActionKind.pass = "ACTION_KIND_PASS"
action_kind_str_name ActionKind.replace_flower = "ACTION_KIND_REPLACE_FLOWER"

pub action_kind_found :
    (a : ActionKind)
    → numbered action_kind_number (action_kind_number a) action_kind_variants ≡ some a
unfolding action_kind_number
action_kind_found ActionKind.unspecified = refl
action_kind_found _ = refl

instance abbrev pub action_kind_enum : ProtoEnum ActionKind
action_kind_enum = record {
  variants = action_kind_variants;
  number = action_kind_number;
  str_name = action_kind_str_name;
  found = action_kind_found;
}

instance abbrev pub action_kind_eq : PartialEq ActionKind
action_kind_eq = enum_eq

pub data ValidationRejectCode : Type 0 where
  unspecified invalid_context tile_not_owned tile_not_available meld_not_formable :
      ValidationRejectCode
  hand_not_complete ruleset_violation action_window_mismatch internal_error : ValidationRejectCode

abbrev validation_reject_code_variants : List ValidationRejectCode
validation_reject_code_variants =
    ValidationRejectCode.unspecified ∷ ValidationRejectCode.invalid_context
    ∷ ValidationRejectCode.tile_not_owned ∷ ValidationRejectCode.tile_not_available
    ∷ ValidationRejectCode.meld_not_formable ∷ ValidationRejectCode.hand_not_complete
    ∷ ValidationRejectCode.ruleset_violation ∷ ValidationRejectCode.action_window_mismatch
    ∷ ValidationRejectCode.internal_error ∷ []

pub validation_reject_code_number : ValidationRejectCode → ℕ
validation_reject_code_number ValidationRejectCode.unspecified = 0
validation_reject_code_number ValidationRejectCode.invalid_context = 1
validation_reject_code_number ValidationRejectCode.tile_not_owned = 2
validation_reject_code_number ValidationRejectCode.tile_not_available = 3
validation_reject_code_number ValidationRejectCode.meld_not_formable = 4
validation_reject_code_number ValidationRejectCode.hand_not_complete = 5
validation_reject_code_number ValidationRejectCode.ruleset_violation = 6
validation_reject_code_number ValidationRejectCode.action_window_mismatch = 7
validation_reject_code_number ValidationRejectCode.internal_error = 8

unfoldable pub validation_reject_code_str_name : ValidationRejectCode → String
validation_reject_code_str_name ValidationRejectCode.unspecified =
    "VALIDATION_REJECT_CODE_UNSPECIFIED"
validation_reject_code_str_name ValidationRejectCode.invalid_context =
    "VALIDATION_REJECT_CODE_INVALID_CONTEXT"
validation_reject_code_str_name ValidationRejectCode.tile_not_owned =
    "VALIDATION_REJECT_CODE_TILE_NOT_OWNED"
validation_reject_code_str_name ValidationRejectCode.tile_not_available =
    "VALIDATION_REJECT_CODE_TILE_NOT_AVAILABLE"
validation_reject_code_str_name ValidationRejectCode.meld_not_formable =
    "VALIDATION_REJECT_CODE_MELD_NOT_FORMABLE"
validation_reject_code_str_name ValidationRejectCode.hand_not_complete =
    "VALIDATION_REJECT_CODE_HAND_NOT_COMPLETE"
validation_reject_code_str_name ValidationRejectCode.ruleset_violation =
    "VALIDATION_REJECT_CODE_RULESET_VIOLATION"
validation_reject_code_str_name ValidationRejectCode.action_window_mismatch =
    "VALIDATION_REJECT_CODE_ACTION_WINDOW_MISMATCH"
validation_reject_code_str_name ValidationRejectCode.internal_error =
    "VALIDATION_REJECT_CODE_INTERNAL_ERROR"

pub validation_reject_code_found :
    (a : ValidationRejectCode)
    → numbered validation_reject_code_number
        (validation_reject_code_number a)
        validation_reject_code_variants
      ≡ some a
unfolding validation_reject_code_number
validation_reject_code_found ValidationRejectCode.unspecified = refl
validation_reject_code_found _ = refl

instance abbrev pub validation_reject_code_enum : ProtoEnum ValidationRejectCode
validation_reject_code_enum = record {
  variants = validation_reject_code_variants;
  number = validation_reject_code_number;
  str_name = validation_reject_code_str_name;
  found = validation_reject_code_found;
}

instance abbrev pub validation_reject_code_eq : PartialEq ValidationRejectCode
validation_reject_code_eq = enum_eq
