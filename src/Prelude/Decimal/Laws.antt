-- ===== src/Prelude/Decimal/Laws.antt =====
-- The printed digits are those of the number: their fuel is enough.
use Prim.Native.Nat.pow
use gb_mahjong_server_rust.Prelude.{
  ℕ, zero, suc, ◌+◌, ◌*◌, ◌/◌, ◌%◌, ◌^◌, ◌≤◌, ◌<◌, length, length-append, true, ◌≡◌, refl, ◌∙◌, inl,
  inr, List, [], ◌∷◌, ◌++◌, arith, Bool-cases,
}
use gb_mahjong_server_rust.Prelude.Tests.{ltb}
use gb_mahjong_server_rust.Prelude.Decimal.{digits}

-- The number that decimal digits denote, behind those that came before.
abbrev pub value : ℕ → List ℕ → ℕ
value acc [] = acc
value acc (d ∷ ds) = value (acc * 10 + d) ds

value-snoc : (acc d : ℕ) (ds : List ℕ) → value acc (ds ++ d ∷ []) ≡ value acc ds * 10 + d
value-snoc acc d [] = refl
value-snoc acc d (x ∷ ds) = value-snoc (acc * 10 + x) d ds

-- With fuel above the number, the digits denote it.
pub value-digits : (fuel n : ℕ) → n < fuel → value 0 (digits fuel n) ≡ n
unfolding digits
value-digits zero n low = omega arith
value-digits (suc fuel) n low = elim (Bool-cases (ltb n 10)) [
  | inl short ↦ rw (short, digits) (omega arith)
  | inr long ↦
      let rest : value 0 (digits fuel (n / 10)) ≡ n / 10 =
        value-digits fuel (n / 10) (ground arith) in
      rw (long, digits) (value-snoc 0 (n % 10) (digits fuel (n / 10)) ∙ omega arith)
]

-- A number of at most so many digits is printed with at most so many.
pub length-digits-le : (most fuel n : ℕ) → n < 10 ^ suc most → length (digits fuel n) ≤ suc most
unfolding digits
length-digits-le most zero n small = omega arith
length-digits-le zero (suc fuel) n small =
    let short : ltb n 10 ≡ true = ground arith in rw (short, digits) (omega arith)
length-digits-le (suc most) (suc fuel) n small = elim (Bool-cases (ltb n 10)) [
  | inl short ↦ rw (short, digits) (omega arith)
  | inr long ↦
      let ten : 10 ^ suc (suc most) ≡ 10 * 10 ^ suc most = pow.suc 10 (suc most) ∙ omega arith in
      let rest : length (digits fuel (n / 10)) ≤ suc most =
        length-digits-le most fuel (n / 10) (omega arith) in
      rw (long, digits) (omega (arith, length-append (digits fuel (n / 10)) (n % 10 ∷ [])))
]

-- The digits of a number that is not zero start with one that is not zero.
pub first-digit :
    (fuel n : ℕ) → n < fuel → 0 < n → (d : ℕ) × (ds : List ℕ) × (digits fuel n ≡ d ∷ ds) × (0 < d)
unfolding digits
first-digit zero n low some_n = absurd (omega arith)
first-digit (suc fuel) n low some_n = elim (Bool-cases (ltb n 10)) [
  | inl short ↦ (n, [], rw (short, digits) refl, some_n)
  | inr long ↦
      let (d, ds, e, big) = first-digit fuel (n / 10) (ground arith) (ground arith) in
      (d, ds ++ (n % 10) ∷ [], rw (long, digits, e) refl, big)
]
