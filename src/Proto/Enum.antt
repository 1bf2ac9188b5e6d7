-- ===== src/Proto/Enum.antt =====
-- What the code generated from a protobuf enumeration offers: the variants in the schema's order,
-- `as i32`, `as_str_name`, `from_str_name` and `try_from`.
pub mod Laws
use mathlib.Core.Option.{some-injective}
use gb_mahjong_server_rust.Prelude.{
  ℕ, ◌+◌, ◌≡◌, sym, ap, ◌∙◌, ◌↔◌, true, Option, none, some, List, [], ◌∷◌, String, PartialEq, ◌==◌,
  nat_eq, string_eq, nat_beq, nat_beq_iff, find,
}
use gb_mahjong_server_rust.Prelude.Int.{ℤ, pos, negsuc}

abbrev pub numbered : {A : Type 0} → (A → ℕ) → ℕ → List A → Option A
numbered number n variants = find (λ a. number a == n) variants

-- `found` is the round trip through the number, which the generated `TryFrom<i32>` has.
pub record ProtoEnum (A : Type 0) : Type 0 where
  pub variants : List A
  pub number : A → ℕ
  pub str_name : A → String
  pub found : (a : A) → numbered number (number a) variants ≡ some a

module _ {A : Type 0} ⦃e : ProtoEnum A⦄ where
  -- `a as i32`
  abbrev pub as_i32 : A → ℤ
  as_i32 a = pos (e.number a)

  abbrev pub as_str_name : A → String
  as_str_name a = e.str_name a

  unfoldable pub from_str_name : String → Option A
  from_str_name name = find (λ a. e.str_name a == name) e.variants

  unfoldable pub try_from : ℤ → Option A
  try_from (pos n) = numbered e.number n e.variants
  try_from (negsuc n) = none

  pub try_from-as_i32 : (a : A) → try_from (as_i32 a) ≡ some a
  unfolding try_from
  try_from-as_i32 a = e.found a

  pub number-injective : (a b : A) → e.number a ≡ e.number b → a ≡ b
  number-injective a b h =
      some-injective a b (sym (e.found a) ∙ ap (λ n. numbered e.number n e.variants) h ∙ e.found b)

  pub number-eq_iff : (a b : A) → (nat_beq (e.number a) (e.number b) ≡ true) ↔ (a ≡ b)
  number-eq_iff a b =
      (λ h. number-injective a b ((nat_beq_iff _ _).0 h), λ p. (nat_beq_iff _ _).1 (ap e.number p))

  -- The derived `PartialEq` of a field-less enumeration.
  abbrev pub enum_eq : PartialEq A
  enum_eq = record { eq = λ a b. nat_beq (e.number a) (e.number b); eq_law = number-eq_iff }

  -- The variants are numbered one after another from `n`.
  abbrev pub Consecutive : ℕ → List A → Type 0
  Consecutive n [] = Unit
  Consecutive n (a ∷ as') = (e.number a ≡ n) × Consecutive (n + 1) as'
