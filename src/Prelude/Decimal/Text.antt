-- ===== src/Prelude/Decimal/Text.antt =====
-- Printed numbers can be read again, so different numbers print differently.
use Prim.Native.Char.{Char, code}
use Prim.Native.String
use Prim.Native.String.append
use gb_mahjong_server_rust.Prelude.{
  ℕ, zero, suc, ◌+◌, ◌-◌, ◌*◌, ◌/◌, ◌%◌, ◌<◌, ◌≡◌, refl, sym, ap, ◌∙◌, inl, inr, List, [], ◌∷◌,
  ◌++◌, arith, Bool-cases, All, String,
}
use gb_mahjong_server_rust.Prelude.Tests.{ltb}
use gb_mahjong_server_rust.Prelude.Decimal.{digits, digit_text, join_digits, show_ℕ}
use gb_mahjong_server_rust.Prelude.Decimal.Laws.{value, value-digits}

abbrev pub IsDigit : ℕ → Type 0
IsDigit d = d < 10

-- A text of decimal digits as a number.
read_from : ℕ → String → ℕ
read_from acc String.[] = acc
read_from acc (String.◌∷◌ c s) = read_from (acc * 10 + (code c - 48)) s

-- The character of a digit.
pub one_digit :
    (d : ℕ) → IsDigit d → (c : Char) × (digit_text d ≡ String.◌∷◌ c String.[]) × (code c ≡ 48 + d)
unfolding digit_text
one_digit zero h = (_, refl, refl)
one_digit (suc zero) h = (_, refl, refl)
one_digit (suc (suc zero)) h = (_, refl, refl)
one_digit (suc (suc (suc zero))) h = (_, refl, refl)
one_digit (suc (suc (suc (suc zero)))) h = (_, refl, refl)
one_digit (suc (suc (suc (suc (suc zero))))) h = (_, refl, refl)
one_digit (suc (suc (suc (suc (suc (suc zero)))))) h = (_, refl, refl)
one_digit (suc (suc (suc (suc (suc (suc (suc zero))))))) h = (_, refl, refl)
one_digit (suc (suc (suc (suc (suc (suc (suc (suc zero)))))))) h = (_, refl, refl)
one_digit (suc (suc (suc (suc (suc (suc (suc (suc (suc n))))))))) h = (_, refl, omega arith)

read-digit :
    (acc d : ℕ) (t : String)
    → IsDigit d
    → read_from acc (String.◌++◌ (digit_text d) t) ≡ read_from (acc * 10 + d) t
unfolding read_from
read-digit acc d t h =
    let (c, shown, meant) = one_digit d h in
    let text : String.◌++◌ (digit_text d) t ≡ String.◌∷◌ c t =
      ap (λ s. String.◌++◌ s t) shown
      ∙ append.cons c String.[] t
      ∙ ap (λ s. String.◌∷◌ c s) (append.nil t) in
    let value_of : code c - 48 ≡ d = omega arith in
    ap (read_from acc) text ∙ ap (λ k. read_from (acc * 10 + k) t) value_of

read-join_digits :
    (acc : ℕ) (ds : List ℕ) → All IsDigit ds → read_from acc (join_digits ds) ≡ value acc ds
unfolding join_digits read_from
read-join_digits acc [] h = refl
read-join_digits acc (d ∷ ds) h =
    read-digit acc d (join_digits ds) h.0 ∙ read-join_digits (acc * 10 + d) ds h.1

All-snoc : (ds : List ℕ) (d : ℕ) → All IsDigit ds → IsDigit d → All IsDigit (ds ++ d ∷ [])
All-snoc [] d hs h = (h, tt)
All-snoc (x ∷ ds) d hs h = (hs.0, All-snoc ds d hs.1 h)

pub digits-IsDigit : (fuel n : ℕ) → All IsDigit (digits fuel n)
unfolding digits
digits-IsDigit zero n = tt
digits-IsDigit (suc fuel) n = elim (Bool-cases (ltb n 10)) [
  | inl short ↦ rw (short, digits) (ground arith, tt)
  | inr long ↦
      rw (long, digits)
        (All-snoc (digits fuel (n / 10)) (n % 10) (digits-IsDigit fuel (n / 10)) (omega arith))
]

-- Reading what was printed gives the number back.
read-show_ℕ : (n : ℕ) → read_from 0 (show_ℕ n) ≡ n
unfolding show_ℕ
read-show_ℕ n =
    read-join_digits 0 (digits (suc n) n) (digits-IsDigit (suc n) n)
    ∙ value-digits (suc n) n (omega arith)

pub show_ℕ-injective : (m n : ℕ) → show_ℕ m ≡ show_ℕ n → m ≡ n
show_ℕ-injective m n same = sym (read-show_ℕ m) ∙ ap (read_from 0) same ∙ read-show_ℕ n
