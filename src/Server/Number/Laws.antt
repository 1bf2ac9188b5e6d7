-- ===== src/Server/Number/Laws.antt =====
-- A printed number is read again, unless it is too large for a u16 (core::num).
use Prim.Native.Char.{Char, code}
use Prim.Native.String
use Prim.Native.String.append
use gb_mahjong_server_rust.Prelude.{
  ℕ, zero, suc, ◌+◌, ◌*◌, ◌≤◌, ◌<◌, ◌≡◌, refl, sym, ap, ◌∙◌, subst, inl, inr, true, false, some,
  List, [], ◌∷◌, String, Result, ok, err, ltb, nat_beq, if◌then◌else◌, Bool-cases, All, arith,
}
use gb_mahjong_server_rust.Prelude.Decimal.{digits, digit_text, join_digits, show_ℕ}
use gb_mahjong_server_rust.Prelude.Decimal.Laws.{value, value-digits, first-digit}
use gb_mahjong_server_rust.Prelude.Decimal.Text.{IsDigit, one_digit, digits-IsDigit}
use gb_mahjong_server_rust.Server.Number.{
  IntErrorKind, pos_overflow, decimal_digit, u16_max, digits_from, parse_u16,
}

pub value-grows : (acc : ℕ) (ds : List ℕ) → acc ≤ value acc ds
value-grows acc [] = omega arith
value-grows acc (d ∷ ds) = let more = value-grows (acc * 10 + d) ds in omega arith

pub decimal_digit-code : (c : Char) (d : ℕ) → d < 10 → code c ≡ 48 + d → decimal_digit c ≡ some d
unfolding decimal_digit
decimal_digit-code c d small e = ground arith

-- A digit in front of a text is its first character.
pub digit_front :
    (d : ℕ) (t : String)
    → IsDigit d
    → (c : Char) × (String.◌++◌ (digit_text d) t ≡ String.◌∷◌ c t) × (code c ≡ 48 + d)
digit_front d t small =
    let (c, shown, named) = one_digit d small in
    (
      c,
      ap (λ s. String.◌++◌ s t) shown
          ∙ append.cons c String.[] t
          ∙ ap (λ s. String.◌∷◌ c s) (append.nil t),
      named,
    )

-- What a number that may be too large is read as.
abbrev pub fits : ℕ → Result IntErrorKind ℕ
fits n = if ltb u16_max n then err pos_overflow else ok n

digits_from-join_digits :
    (acc : ℕ) (ds : List ℕ)
    → acc ≤ 65535
    → All IsDigit ds
    → digits_from acc (join_digits ds) ≡ fits (value acc ds)
unfolding digits_from join_digits
digits_from-join_digits acc [] small h = ground arith
digits_from-join_digits acc (d ∷ ds) small h =
    let (c, shown, named) = digit_front d (join_digits ds) h.0 in
    let read : digits_from acc (join_digits (d ∷ ds))
        ≡ digits_from acc (String.◌∷◌ c (join_digits ds)) =
      ap (digits_from acc) shown in
    let step : digits_from acc (String.◌∷◌ c (join_digits ds)) ≡ (
        if ltb u16_max (acc * 10 + d)
        then err pos_overflow
        else digits_from (acc * 10 + d) (join_digits ds)) =
      rw (decimal_digit-code c d h.0 named, digits_from) refl in
    read ∙ step ∙ elim (Bool-cases (ltb u16_max (acc * 10 + d))) [
      | inl large ↦
          let more = value-grows (acc * 10 + d) ds in
          let past : ltb u16_max (value (acc * 10 + d) ds) ≡ true = ground arith in
          rw (large, past) refl
      | inr low ↦ rw low (digits_from-join_digits (acc * 10 + d) ds (ground arith) h.1)
    ]

-- The digits of a number start with some digit.
pub digits_front :
    (n : ℕ) → (d : ℕ) × (ds : List ℕ) × (digits (suc n) n ≡ d ∷ ds) × IsDigit d × All IsDigit ds
unfolding digits
digits_front zero = (0, [], refl, omega arith, tt)
digits_front (suc n) =
    let (d, ds, e, _) = first-digit (suc (suc n)) (suc n) (omega arith) (omega arith) in
    let (small, rest) = subst (All IsDigit) e (digits-IsDigit (suc (suc n)) (suc n)) in
    (d, ds, e, small, rest)

-- A text that starts with a digit has no sign.
parse_u16-digit :
    (c : Char) (t : String)
    → 48 ≤ code c
    → parse_u16 (String.◌∷◌ c t) ≡ digits_from 0 (String.◌∷◌ c t)
unfolding parse_u16
parse_u16-digit c t high =
    let no_plus : nat_beq (code c) 43 ≡ false = ground arith in rw no_plus refl

pub parse_u16-show_ℕ : (n : ℕ) → parse_u16 (show_ℕ n) ≡ fits n
unfolding show_ℕ join_digits
parse_u16-show_ℕ n =
    let (d, ds, e, small, rest) = digits_front n in
    let (c, shown, named) = digit_front d (join_digits ds) small in
    let text : show_ℕ n ≡ String.◌∷◌ c (join_digits ds) = ap join_digits e ∙ shown in
    ap parse_u16 text
    ∙ parse_u16-digit c (join_digits ds) (omega arith)
    ∙ ap (digits_from 0) (sym text)
    ∙ digits_from-join_digits 0 (digits (suc n) n) (omega arith) (digits-IsDigit (suc n) n)
    ∙ ap fits (value-digits (suc n) n (omega arith))
