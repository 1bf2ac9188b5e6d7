-- ===== src/Proto/Enum/Laws.antt =====
-- When a number is that of a variant, for variants that the schema numbers one after another.
use gb_mahjong_server_rust.Prelude.{
  ℕ, zero, ◌+◌, ◌≤◌, ◌<◌, ◌≡◌, refl, ap, ◌⊎◌, inl, inr, Bool, true, false, none, some, List, [],
  ◌∷◌, ltb, nat_beq_iff, nat_beq, length, Bool-cases, arith,
}
use gb_mahjong_server_rust.Prelude.Int.{ℤ, pos, negsuc}
use gb_mahjong_server_rust.Proto.Enum.{ProtoEnum, numbered, Consecutive, try_from, as_i32}

-- Whether an i32 is one of the first `count` numbers.
abbrev pub in_schema : ℕ → ℤ → Bool
in_schema count (pos n) = ltb n count
in_schema count (negsuc n) = false

module _ {A : Type 0} ⦃e : ProtoEnum A⦄ where
  abbrev Numbered : ℕ → ℕ → List A → Type 0
  Numbered k n xs =
      ((a : A) × (numbered e.number n xs ≡ some a)
        × (e.number a ≡ n)
        × (k ≤ n)
        × (n < k + length xs))
      ⊎ ((numbered e.number n xs ≡ none) × ((n < k) ⊎ (k + length xs ≤ n)))

  Consecutive-Numbered : (k n : ℕ) (xs : List A) → Consecutive k xs → Numbered k n xs
  Consecutive-Numbered k n [] h = inr (refl, omega arith)
  Consecutive-Numbered k n (x ∷ xs) h = elim (Bool-cases (nat_beq (e.number x) n)) [
    | inl hit ↦ inl (x, rw hit, (nat_beq_iff _ _).0 hit, ground arith, ground arith)
    | inr miss ↦ elim (Consecutive-Numbered (k + 1) n xs h.1) [
      | inl (a, found, same, low, high) ↦ inl (a, rw miss found, same, omega arith, omega arith)
      | inr (lost, out) ↦ inr (rw miss lost, ground arith)
    ]
  ]

  pub try_from_cases :
      Consecutive zero e.variants
      → (v : ℤ)
      → ((a : A) × (try_from v ≡ some a)
          × (as_i32 a ≡ v)
          × (in_schema (length e.variants) v ≡ true))
        ⊎ ((try_from {A = A} v ≡ none) × (in_schema (length e.variants) v ≡ false))
  unfolding try_from
  try_from_cases h (pos n) = elim (Consecutive-Numbered zero n e.variants h) [
    | inl (a, found, same, low, high) ↦ inl (a, found, ap pos same, ground arith)
    | inr (lost, out) ↦ inr (lost, ground arith)
  ]
  try_from_cases h (negsuc n) = inr (refl, refl)
