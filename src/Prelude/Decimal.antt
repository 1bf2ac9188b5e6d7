-- ===== src/Prelude/Decimal.antt =====
-- How `format!` prints integers (`Display` of u32, u64 and i32).
pub mod Laws
pub mod Text
use Prim.Native.Nat.{ℕ, zero, suc, ◌+◌, ◌/◌, ◌%◌}
use Prim.Native.String.{String}
use Prim.Native.String
use mathlib.Core.List.{List, [], ◌∷◌, ◌++◌}
use gb_mahjong_server_rust.Prelude.Tests.{ltb, if◌then◌else◌}
use gb_mahjong_server_rust.Prelude.Int.{ℤ, pos, negsuc}

-- The decimal digits of a number, the most significant first. The fuel `suc n` is enough for `n`.
unfoldable pub digits : ℕ → ℕ → List ℕ
digits zero n = []
digits (suc fuel) n =
    let rest = digits fuel (n / 10) ++ (n % 10) ∷ [] in if ltb n 10 then n ∷ [] else rest

pub digit_text : ℕ → String
digit_text zero = "0"
digit_text (suc zero) = "1"
digit_text (suc (suc zero)) = "2"
digit_text (suc (suc (suc zero))) = "3"
digit_text (suc (suc (suc (suc zero)))) = "4"
digit_text (suc (suc (suc (suc (suc zero))))) = "5"
digit_text (suc (suc (suc (suc (suc (suc zero)))))) = "6"
digit_text (suc (suc (suc (suc (suc (suc (suc zero))))))) = "7"
digit_text (suc (suc (suc (suc (suc (suc (suc (suc zero)))))))) = "8"
digit_text _ = "9"

unfoldable pub join_digits : List ℕ → String
join_digits [] = ""
join_digits (d ∷ ds) = String.◌++◌ (digit_text d) (join_digits ds)

unfoldable pub show_ℕ : ℕ → String
unfolding digits digit_text join_digits
show_ℕ n = join_digits (digits (suc n) n)

unfoldable pub show_ℤ : ℤ → String
unfolding show_ℕ
show_ℤ (pos n) = show_ℕ n
show_ℤ (negsuc n) = String.◌++◌ "-" (show_ℕ (n + 1))
