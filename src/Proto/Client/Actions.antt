-- ===== src/Proto/Client/Actions.antt =====
-- The enumerations of proto/client/common/enums.proto: ClaimKind, WinType, RejectCode.
use gb_mahjong_server_rust.Prelude.{ℕ, ◌≡◌, refl, String, some, List, [], ◌∷◌, PartialEq}
use gb_mahjong_server_rust.Proto.Enum.{ProtoEnum, enum_eq, numbered}

pub data ClaimKind : Type 0 where
  unspecified chi peng exposed_kong discard_win rob_kong_win : ClaimKind

abbrev claim_kind_variants : List ClaimKind
claim_kind_variants =
    ClaimKind.unspecified ∷ ClaimKind.chi ∷ ClaimKind.peng ∷ ClaimKind.exposed_kong
    ∷ ClaimKind.discard_win ∷ ClaimKind.rob_kong_win ∷ []

unfoldable pub claim_kind_number : ClaimKind → ℕ
claim_kind_number ClaimKind.unspecified = 0
claim_kind_number ClaimKind.chi = 1
claim_kind_number ClaimKind.peng = 2
claim_kind_number ClaimKind.exposed_kong = 3
claim_kind_number ClaimKind.discard_win = 4
claim_kind_number ClaimKind.rob_kong_win = 5

unfoldable pub claim_kind_str_name : ClaimKind → String
claim_kind_str_name ClaimKind.unspecified = "CLAIM_KIND_UNSPECIFIED"
claim_kind_str_name ClaimKind.chi = "CLAIM_KIND_CHI"
claim_kind_str_name ClaimKind.peng = "CLAIM_KIND_PENG"
claim_kind_str_name ClaimKind.exposed_kong = "CLAIM_KIND_EXPOSED_KONG"
claim_kind_str_name ClaimKind.discard_win = "CLAIM_KIND_DISCARD_WIN"
claim_kind_str_name ClaimKind.rob_kong_win = "CLAIM_KIND_ROB_KONG_WIN"

pub claim_kind_found :
    (a : ClaimKind) → numbered claim_kind_number (claim_kind_number a) claim_kind_variants ≡ some a
unfolding claim_kind_number
claim_kind_found ClaimKind.unspecified = refl
claim_kind_found _ = refl

instance abbrev pub claim_kind_enum : ProtoEnum ClaimKind
claim_kind_enum = record {
  variants = claim_kind_variants;
  number = claim_kind_number;
  str_name = claim_kind_str_name;
  found = claim_kind_found;
}

instance abbrev pub claim_kind_eq : PartialEq ClaimKind
claim_kind_eq = enum_eq

pub data WinType : Type 0 where
  unspecified self_draw discard rob_kong kong_draw : WinType

abbrev win_type_variants : List WinType
win_type_variants =
    WinType.unspecified ∷ WinType.self_draw ∷ WinType.discard ∷ WinType.rob_kong ∷ WinType.kong_draw
    ∷ []

unfoldable pub win_type_number : WinType → ℕ
win_type_number WinType.unspecified = 0
win_type_number WinType.self_draw = 1
win_type_number WinType.discard = 2
win_type_number WinType.rob_kong = 3
win_type_number WinType.kong_draw = 4

unfoldable pub win_type_str_name : WinType → String
win_type_str_name WinType.unspecified = "WIN_TYPE_UNSPECIFIED"
win_type_str_name WinType.self_draw = "WIN_TYPE_SELF_DRAW"
win_type_str_name WinType.discard = "WIN_TYPE_DISCARD"
win_type_str_name WinType.rob_kong = "WIN_TYPE_ROB_KONG"
win_type_str_name WinType.kong_draw = "WIN_TYPE_KONG_DRAW"

pub win_type_found :
    (a : WinType) → numbered win_type_number (win_type_number a) win_type_variants ≡ some a
unfolding win_type_number
win_type_found WinType.unspecified = refl
win_type_found _ = refl

instance abbrev pub win_type_enum : ProtoEnum WinType
win_type_enum = record {
  variants = win_type_variants;
  number = win_type_number;
  str_name = win_type_str_name;
  found = win_type_found;
}

instance abbrev pub win_type_eq : PartialEq WinType
win_type_eq = enum_eq

pub data RejectCode : Type 0 where
  unspecified invalid_request auth_failed room_not_found match_already_started : RejectCode
  seat_unavailable already_joined not_in_room phase_mismatch not_your_turn : RejectCode
  action_window_closed stale_event_seq invalid_tile action_not_available : RejectCode
  rule_validation_failed internal_error : RejectCode

abbrev reject_code_variants : List RejectCode
reject_code_variants =
    RejectCode.unspecified ∷ RejectCode.invalid_request ∷ RejectCode.auth_failed
    ∷ RejectCode.room_not_found ∷ RejectCode.match_already_started ∷ RejectCode.seat_unavailable
    ∷ RejectCode.already_joined ∷ RejectCode.not_in_room ∷ RejectCode.phase_mismatch
    ∷ RejectCode.not_your_turn ∷ RejectCode.action_window_closed ∷ RejectCode.stale_event_seq
    ∷ RejectCode.invalid_tile ∷ RejectCode.action_not_available ∷ RejectCode.rule_validation_failed
    ∷ RejectCode.internal_error ∷ []

pub reject_code_number : RejectCode → ℕ
reject_code_number RejectCode.unspecified = 0
reject_code_number RejectCode.invalid_request = 1
reject_code_number RejectCode.auth_failed = 2
reject_code_number RejectCode.room_not_found = 3
reject_code_number RejectCode.match_already_started = 4
reject_code_number RejectCode.seat_unavailable = 5
reject_code_number RejectCode.already_joined = 6
reject_code_number RejectCode.not_in_room = 7
reject_code_number RejectCode.phase_mismatch = 8
reject_code_number RejectCode.not_your_turn = 9
reject_code_number RejectCode.action_window_closed = 10
reject_code_number RejectCode.stale_event_seq = 11
reject_code_number RejectCode.invalid_tile = 12
reject_code_number RejectCode.action_not_available = 13
reject_code_number RejectCode.rule_validation_failed = 14
reject_code_number RejectCode.internal_error = 15

unfoldable pub reject_code_str_name : RejectCode → String
reject_code_str_name RejectCode.unspecified = "REJECT_CODE_UNSPECIFIED"
reject_code_str_name RejectCode.invalid_request = "REJECT_CODE_INVALID_REQUEST"
reject_code_str_name RejectCode.auth_failed = "REJECT_CODE_AUTH_FAILED"
reject_code_str_name RejectCode.room_not_found = "REJECT_CODE_ROOM_NOT_FOUND"
reject_code_str_name RejectCode.match_already_started = "REJECT_CODE_MATCH_ALREADY_STARTED"
reject_code_str_name RejectCode.seat_unavailable = "REJECT_CODE_SEAT_UNAVAILABLE"
reject_code_str_name RejectCode.already_joined = "REJECT_CODE_ALREADY_JOINED"
reject_code_str_name RejectCode.not_in_room = "REJECT_CODE_NOT_IN_ROOM"
reject_code_str_name RejectCode.phase_mismatch = "REJECT_CODE_PHASE_MISMATCH"
reject_code_str_name RejectCode.not_your_turn = "REJECT_CODE_NOT_YOUR_TURN"
reject_code_str_name RejectCode.action_window_closed = "REJECT_CODE_ACTION_WINDOW_CLOSED"
reject_code_str_name RejectCode.stale_event_seq = "REJECT_CODE_STALE_EVENT_SEQ"
reject_code_str_name RejectCode.invalid_tile = "REJECT_CODE_INVALID_TILE"
reject_code_str_name RejectCode.action_not_available = "REJECT_CODE_ACTION_NOT_AVAILABLE"
reject_code_str_name RejectCode.rule_validation_failed = "REJECT_CODE_RULE_VALIDATION_FAILED"
reject_code_str_name RejectCode.internal_error = "REJECT_CODE_INTERNAL_ERROR"

pub reject_code_found :
    (a : RejectCode)
    → numbered reject_code_number (reject_code_number a) reject_code_variants ≡ some a
unfolding reject_code_number
reject_code_found RejectCode.unspecified = refl
reject_code_found _ = refl

instance abbrev pub reject_code_enum : ProtoEnum RejectCode
reject_code_enum = record {
  variants = reject_code_variants;
  number = reject_code_number;
  str_name = reject_code_str_name;
  found = reject_code_found;
}

instance abbrev pub reject_code_eq : PartialEq RejectCode
reject_code_eq = enum_eq
