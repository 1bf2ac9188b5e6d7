-- ===== src/HashMap.antt =====
-- std::collections::HashMap as the list of its entries. A key is inserted in place of its old entry,
-- or behind the others; the order of the entries is the order in which `values` goes through them.
pub mod Laws
pub mod Values
use gb_mahjong_server_rust.Prelude.{
  ℕ, Bool, Option, none, some, List, [], ◌∷◌, map, PartialEq, ◌==◌, if◌then◌else◌, length, is_some,
}

abbrev pub HashMap {ℓ κ} : Type ℓ → Type κ → Type (ℓ ⊔ κ)
HashMap K V = List (K × V)

module _ {ℓ κ} {K : Type ℓ} {V : Type κ} where
  abbrev pub empty : HashMap K V
  empty = []

  abbrev pub values : HashMap K V → List V
  values = map (λ e. e.1)

  abbrev pub len : HashMap K V → ℕ
  len m = length m

module _ {ℓ κ} {K : Type ℓ} {V : Type κ} ⦃e : PartialEq K⦄ where
  unfoldable pub get : K → HashMap K V → Option V
  get k [] = none
  get k ((j, v) ∷ m) = if j == k then some v else get k m

  unfoldable pub insert : K → V → HashMap K V → HashMap K V
  insert k v [] = (k, v) ∷ []
  insert k v ((j, w) ∷ m) = if j == k then (k, v) ∷ m else (j, w) ∷ insert k v m

  unfoldable pub remove : K → HashMap K V → HashMap K V
  remove k [] = []
  remove k ((j, v) ∷ m) = if j == k then remove k m else (j, v) ∷ remove k m

  abbrev pub contains_key : K → HashMap K V → Bool
  contains_key k m = is_some (get k m)
