-- ===== src/Room/Parse/Agreement.antt =====
-- The client's and the engine's enumerations agree: what a variant's name carries over keeps its number.
use gb_mahjong_server_rust.Prelude.{
  ℕ, ◌≡◌, refl, ap, ◌∙◌, inl, inr, String, Result, ok, err, ◌>>=◌, length, arith, if◌then◌else◌,
}
use gb_mahjong_server_rust.Prelude.Int.{ℤ, pos}
use gb_mahjong_server_rust.Prelude.Text.{◌+++◌}
use gb_mahjong_server_rust.Prelude.Decimal.{show_ℤ}
use gb_mahjong_server_rust.Proto.Enum.{ProtoEnum, Consecutive, as_i32}
use gb_mahjong_server_rust.Proto.Enum.Laws.{in_schema, try_from_cases}
use gb_mahjong_server_rust.Proto.Client
use gb_mahjong_server_rust.Proto.Client.{
  RejectCode, seat_enum as client_seat, tile_enum as client_tile,
  claim_kind_enum as client_claim_kind, win_type_enum as client_win_type,
}
use gb_mahjong_server_rust.Proto.Engine
use gb_mahjong_server_rust.Proto.Engine.{
  seat_enum as engine_seat, tile_enum as engine_tile, claim_kind_enum as engine_claim_kind,
  win_type_enum as engine_win_type,
}
use gb_mahjong_server_rust.Room.Parse.{
  ActionValidationError, parse_client, map_seat_to_engine, map_tile_to_engine,
  map_claim_kind_to_engine, map_win_type_to_engine, parse_client_seat_value,
  parse_client_tile_value, parse_client_claim_kind_value, parse_client_win_type_value,
}

module _ {A B : Type 0} ⦃e : ProtoEnum A⦄ ⦃f : ProtoEnum B⦄ (translate : A → B) where
  -- Parsing, then translating, is the identity on the numbers of the schema.
  parse_translate :
      (reject_code : RejectCode) (what : String)
      → Consecutive 0 e.variants
      → ((a : A) → f.number (translate a) ≡ e.number a)
      → (v : ℤ)
      → (parse_client reject_code what v >>= λ a. ok (as_i32 (translate a))) ≡ (
          if in_schema (length e.variants) v
          then ok v
          else err (record { reject_code = reject_code; message = what +++ show_ℤ v }))
  unfolding parse_client
  parse_translate reject_code what h same v = elim (try_from_cases {A = A} ⦃e = e⦄ h v) [
    | inl (a, found, number, inside) ↦
        rw (found, parse_client, inside) (ap ok (ap pos (same a) ∙ number))
    | inr (lost, outside) ↦ rw (lost, parse_client, outside)
  ]

pub map_seat_to_engine-number :
    (a : Client.Seat) → engine_seat.number (map_seat_to_engine a) ≡ client_seat.number a
unfolding map_seat_to_engine Client.seat_number Engine.seat_number Client.seat_str_name
    Engine.seat_str_name
map_seat_to_engine-number Client.Seat.unspecified = refl
map_seat_to_engine-number _ = refl

pub map_tile_to_engine-number :
    (a : Client.Tile) → engine_tile.number (map_tile_to_engine a) ≡ client_tile.number a
unfolding map_tile_to_engine Client.tile_number Engine.tile_number Client.tile_str_name
    Engine.tile_str_name
map_tile_to_engine-number Client.Tile.unspecified = refl
map_tile_to_engine-number _ = refl

pub map_claim_kind_to_engine-number :
    (a : Client.ClaimKind)
    → engine_claim_kind.number (map_claim_kind_to_engine a) ≡ client_claim_kind.number a
unfolding map_claim_kind_to_engine Client.claim_kind_number Engine.claim_kind_number
    Client.claim_kind_str_name Engine.claim_kind_str_name
map_claim_kind_to_engine-number Client.ClaimKind.unspecified = refl
map_claim_kind_to_engine-number _ = refl

pub map_win_type_to_engine-number :
    (a : Client.WinType)
    → engine_win_type.number (map_win_type_to_engine a) ≡ client_win_type.number a
unfolding map_win_type_to_engine Client.win_type_number Engine.win_type_number
    Client.win_type_str_name Engine.win_type_str_name
map_win_type_to_engine-number Client.WinType.unspecified = refl
map_win_type_to_engine-number _ = refl

-- What a parser should answer for an enumeration of `count` values.
abbrev pub carried : ℕ → RejectCode → String → ℤ → Result ActionValidationError ℤ
carried count reject_code what v =
    if in_schema count v
    then ok v
    else err (record { reject_code = reject_code; message = what +++ show_ℤ v })

pub parse_client_tile_value_lem :
    (v : ℤ)
    → parse_client_tile_value v ≡ carried 44 RejectCode.invalid_tile "unknown tile enum value " v
unfolding parse_client_tile_value Client.tile_number
parse_client_tile_value_lem v =
    parse_translate map_tile_to_engine RejectCode.invalid_tile "unknown tile enum value "
      (omega arith) map_tile_to_engine-number v

pub parse_client_seat_value_lem :
    (v : ℤ)
    → parse_client_seat_value v ≡ carried 5 RejectCode.invalid_request "unknown seat enum value " v
unfolding parse_client_seat_value Client.seat_number
parse_client_seat_value_lem v =
    parse_translate map_seat_to_engine RejectCode.invalid_request "unknown seat enum value "
      (omega arith) map_seat_to_engine-number v

pub parse_client_claim_kind_value_lem :
    (v : ℤ)
    → parse_client_claim_kind_value v
      ≡ carried 6 RejectCode.invalid_request "unknown claim kind enum value " v
unfolding parse_client_claim_kind_value Client.claim_kind_number
parse_client_claim_kind_value_lem v =
    parse_translate map_claim_kind_to_engine RejectCode.invalid_request
      "unknown claim kind enum value " (omega arith) map_claim_kind_to_engine-number v

pub parse_client_win_type_value_lem :
    (v : ℤ)
    → parse_client_win_type_value v
      ≡ carried 5 RejectCode.invalid_request "unknown win type enum value " v
unfolding parse_client_win_type_value Client.win_type_number
parse_client_win_type_value_lem v =
    parse_translate map_win_type_to_engine RejectCode.invalid_request "unknown win type enum value "
      (omega arith) map_win_type_to_engine-number v

-- A tile, a seat, a kind of claim and a kind of win from a client reach the engine under the number
-- that they came with, if it is one of the 44, 5, 6 and 5 numbers of the client's schema. Any other
-- i32 is refused, with INVALID_TILE for a tile and INVALID_REQUEST for the rest, and a message that
-- shows it.
pub parse_client_values_agree :
    (v : ℤ)
    → (parse_client_tile_value v ≡ carried 44 RejectCode.invalid_tile "unknown tile enum value " v)
      × (parse_client_seat_value v
          ≡ carried 5 RejectCode.invalid_request "unknown seat enum value " v)
      × (parse_client_claim_kind_value v
          ≡ carried 6 RejectCode.invalid_request "unknown claim kind enum value " v)
      × (parse_client_win_type_value v
          ≡ carried 5 RejectCode.invalid_request "unknown win type enum value " v)
parse_client_values_agree v = (
  parse_client_tile_value_lem v,
  parse_client_seat_value_lem v,
  parse_client_claim_kind_value_lem v,
  parse_client_win_type_value_lem v,
)
