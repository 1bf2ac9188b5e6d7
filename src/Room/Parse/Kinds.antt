-- ===== src/Room/Parse/Kinds.antt =====
-- What opened the window of a claim or a win, by the number of its kind in the schema (src/room.rs:
-- derive_claim_trigger_action, derive_win_trigger_action).
use gb_mahjong_server_rust.Prelude.{
  ℕ, zero, suc, ◌≡◌, refl, Bool, true, false, ok, ◌==◌, nat_eq, arith, if◌then◌else◌,
}
use gb_mahjong_server_rust.Prelude.Int.{ℤ, pos, negsuc}
use gb_mahjong_server_rust.Proto.Enum.Laws.{in_schema}
use gb_mahjong_server_rust.Proto.Enum.{try_from}
use gb_mahjong_server_rust.Proto.Client.{
  ClaimKind, WinType, claim_kind_eq, win_type_eq, claim_kind_number, win_type_number,
  claim_kind_enum, win_type_enum,
}
use gb_mahjong_server_rust.Proto.Engine
use gb_mahjong_server_rust.Room.Parse.{
  parse_client, claim_trigger, win_trigger, parse_client_claim_kind, parse_client_win_type,
  derive_claim_trigger_action, derive_win_trigger_action,
}

abbrev pub is_number : ℕ → ℤ → Bool
is_number n (pos m) = m == n
is_number n (negsuc m) = false

-- Number 5 is CLAIM_KIND_ROB_KONG_WIN.
abbrev pub claim_opener : ℤ → Engine.ActionKind
claim_opener kind =
    if is_number 5 kind then Engine.ActionKind.supplemental_kong else Engine.ActionKind.discard

-- Number 1 is WIN_TYPE_SELF_DRAW, 2 WIN_TYPE_DISCARD, 3 WIN_TYPE_ROB_KONG, 4 WIN_TYPE_KONG_DRAW.
abbrev pub win_opener : ℤ → Engine.ActionKind
win_opener kind =
    if is_number 1 kind
    then Engine.ActionKind.draw
    else if is_number 2 kind
    then Engine.ActionKind.discard
    else if is_number 3 kind
    then Engine.ActionKind.supplemental_kong
    else if is_number 4 kind
    then Engine.ActionKind.draw
    else Engine.ActionKind.unspecified

pub claim_kind_of :
    (v : ℤ)
    → in_schema 6 v ≡ true
    → (k : ClaimKind) × (parse_client_claim_kind v ≡ ok k)
      × (derive_claim_trigger_action v ≡ claim_opener v)
      × ((k == ClaimKind.rob_kong_win) ≡ is_number 5 v)
unfolding derive_claim_trigger_action parse_client_claim_kind parse_client claim_trigger try_from
    claim_kind_number
claim_kind_of (pos zero) h = (ClaimKind.unspecified, refl, refl, refl)
claim_kind_of (pos (suc zero)) h = (ClaimKind.chi, refl, refl, refl)
claim_kind_of (pos (suc (suc zero))) h = (ClaimKind.peng, refl, refl, refl)
claim_kind_of (pos (suc (suc (suc zero)))) h = (ClaimKind.exposed_kong, refl, refl, refl)
claim_kind_of (pos (suc (suc (suc (suc zero))))) h = (ClaimKind.discard_win, refl, refl, refl)
claim_kind_of (pos (suc (suc (suc (suc (suc zero)))))) h =
    (ClaimKind.rob_kong_win, refl, refl, refl)
claim_kind_of (pos (suc (suc (suc (suc (suc (suc n))))))) h = ground arith
claim_kind_of (negsuc n) h = ground arith

pub win_type_of :
    (v : ℤ)
    → in_schema 5 v ≡ true
    → (k : WinType) × (parse_client_win_type v ≡ ok k)
      × (derive_win_trigger_action v ≡ win_opener v)
      × ((k == WinType.kong_draw) ≡ is_number 4 v)
      × ((k == WinType.rob_kong) ≡ is_number 3 v)
unfolding derive_win_trigger_action parse_client_win_type parse_client win_trigger try_from
    win_type_number
win_type_of (pos zero) h = (WinType.unspecified, refl, refl, refl, refl)
win_type_of (pos (suc zero)) h = (WinType.self_draw, refl, refl, refl, refl)
win_type_of (pos (suc (suc zero))) h = (WinType.discard, refl, refl, refl, refl)
win_type_of (pos (suc (suc (suc zero)))) h = (WinType.rob_kong, refl, refl, refl, refl)
win_type_of (pos (suc (suc (suc (suc zero))))) h = (WinType.kong_draw, refl, refl, refl, refl)
win_type_of (pos (suc (suc (suc (suc (suc n)))))) h = ground arith
win_type_of (negsuc n) h = ground arith
