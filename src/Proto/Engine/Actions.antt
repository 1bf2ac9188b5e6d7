-- ===== src/Proto/Engine/Actions.antt =====
-- The enumerations of proto/engine/common/enums.proto: ClaimKind, WinType.
use gb_mahjong_server_rust.Prelude.{ℕ, ◌≡◌, refl, String, some, List, [], ◌∷◌, PartialEq}
use gb_mahjong_server_rust.Proto.Enum.{ProtoEnum, enum_eq, numbered}

pub data ClaimKind : Type 0 where
  unspecified chi peng exposed_kong discard_win rob_kong_win : ClaimKind

abbrev claim_kind_variants : List ClaimKind
claim_kind_variants =
    ClaimKind.unspecified ∷ ClaimKind.chi ∷ ClaimKind.peng ∷ ClaimKind.exposed_kong
    ∷ ClaimKind.discard_win ∷ ClaimKind.rob_kong_win ∷ []

unfoldable pub claim_kind_number : ClaimKind → ℕ
claim_kind_number ClaimKind.unspecified = 0
claim_kind_number ClaimKind.chi = 1
claim_kind_number ClaimKind.peng = 2
claim_kind_number ClaimKind.exposed_kong = 3
claim_kind_number ClaimKind.discard_win = 4
claim_kind_number ClaimKind.rob_kong_win = 5

unfoldable pub claim_kind_str_name : ClaimKind → String
claim_kind_str_name ClaimKind.unspecified = "CLAIM_KIND_UNSPECIFIED"
claim_kind_str_name ClaimKind.chi = "CLAIM_KIND_CHI"
claim_kind_str_name ClaimKind.peng = "CLAIM_KIND_PENG"
claim_kind_str_name ClaimKind.exposed_kong = "CLAIM_KIND_EXPOSED_KONG"
claim_kind_str_name ClaimKind.discard_win = "CLAIM_KIND_DISCARD_WIN"
claim_kind_str_name ClaimKind.rob_kong_win = "CLAIM_KIND_ROB_KONG_WIN"

pub claim_kind_found :
    (a : ClaimKind) → numbered claim_kind_number (claim_kind_number a) claim_kind_variants ≡ some a
unfolding claim_kind_number
claim_kind_found ClaimKind.unspecified = refl
claim_kind_found _ = refl

instance abbrev pub claim_kind_enum : ProtoEnum ClaimKind
claim_kind_enum = record {
  variants = claim_kind_variants;
  number = claim_kind_number;
  str_name = claim_kind_str_name;
  found = claim_kind_found;
}

instance abbrev pub claim_kind_eq : PartialEq ClaimKind
claim_kind_eq = enum_eq

pub data WinType : Type 0 where
  unspecified self_draw discard rob_kong kong_draw : WinType

abbrev win_type_variants : List WinType
win_type_variants =
    WinType.unspecified ∷ WinType.self_draw ∷ WinType.discard ∷ WinType.rob_kong ∷ WinType.kong_draw
    ∷ []

unfoldable pub win_type_number : WinType → ℕ
win_type_number WinType.unspecified = 0
win_type_number WinType.self_draw = 1
win_type_number WinType.discard = 2
win_type_number WinType.rob_kong = 3
win_type_number WinType.kong_draw = 4

unfoldable pub win_type_str_name : WinType → String
win_type_str_name WinType.unspecified = "WIN_TYPE_UNSPECIFIED"
win_type_str_name WinType.self_draw = "WIN_TYPE_SELF_DRAW"
win_type_str_name WinType.discard = "WIN_TYPE_DISCARD"
win_type_str_name WinType.rob_kong = "WIN_TYPE_ROB_KONG"
win_type_str_name WinType.kong_draw = "WIN_TYPE_KONG_DRAW"

pub win_type_found :
    (a : WinType) → numbered win_type_number (win_type_number a) win_type_variants ≡ some a
unfolding win_type_number
win_type_found WinType.unspecified = refl
win_type_found _ = refl

instance abbrev pub win_type_enum : ProtoEnum WinType
win_type_enum = record {
  variants = win_type_variants;
  number = win_type_number;
  str_name = win_type_str_name;
  found = win_type_found;
}

instance abbrev pub win_type_eq : PartialEq WinType
win_type_eq = enum_eq
