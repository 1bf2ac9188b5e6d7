-- ===== src/Server/Number.antt =====
-- core::num: `str::parse::<u16>`, the digits of a radix, and the numbers in core::net's texts.
pub mod Laws
use Prim.Native.Char.{Char, code}
use Prim.Native.String
use gb_mahjong_server_rust.Prelude.{
  ℕ, suc, ◌+◌, ◌-◌, ◌*◌, ◌^◌, Bool, true, false, Option, none, some, String, Result, ok, err, ltb,
  leb, nat_beq, if◌then◌else◌, ◌&&◌, ◌||◌, not,
}

-- core::num::IntErrorKind, as far as an unsigned number has it.
pub data IntErrorKind : Type 0 where
  empty : IntErrorKind
  invalid_digit : IntErrorKind
  pos_overflow : IntErrorKind

-- How a ParseIntError prints.
unfoldable pub description : IntErrorKind → String
description empty = "cannot parse integer from empty string"
description invalid_digit = "invalid digit found in string"
description pos_overflow = "number too large to fit in target type"

-- `char::to_digit(10)`
unfoldable pub decimal_digit : Char → Option ℕ
decimal_digit c = if leb 48 (code c) && leb (code c) 57 then some (code c - 48) else none

-- `char::to_digit(16)`
unfoldable pub hex_digit : Char → Option ℕ
unfolding decimal_digit
hex_digit c =
    if leb 97 (code c) && leb (code c) 102
    then some (code c - 87)
    else if leb 65 (code c) && leb (code c) 70
    then some (code c - 55)
    else decimal_digit c

abbrev pub u16_max : ℕ
u16_max = 65535

-- The digits of a number behind `acc`. A digit is looked at before the product is: a text with a
-- wrong character is refused as such, unless the number is too large before it.
pub digits_from : ℕ → String → Result IntErrorKind ℕ
digits_from acc String.[] = ok acc
digits_from acc (String.◌∷◌ c s) = elim (decimal_digit c) [
  | none ↦ err invalid_digit
  | some d ↦ if ltb u16_max (acc * 10 + d) then err pos_overflow else digits_from (acc * 10 + d) s
]

pub unsigned : String → Result IntErrorKind ℕ
unsigned String.[] = err invalid_digit
unsigned (String.◌∷◌ c s) = digits_from 0 (String.◌∷◌ c s)

-- `value.parse::<u16>()`: one plus sign may stand in front.
unfoldable pub parse_u16 : String → Result IntErrorKind ℕ
unfolding digits_from unsigned decimal_digit
parse_u16 String.[] = err empty
parse_u16 (String.◌∷◌ c s) =
    if nat_beq (code c) 43 then unsigned s else digits_from 0 (String.◌∷◌ c s)
