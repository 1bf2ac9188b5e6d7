-- ===== src/HashMap/Laws.antt =====
-- What `get` returns after an update, and what an update keeps of the entries.
use gb_mahjong_server_rust.Prelude.{
  ◌≡◌, ◌≢◌, refl, sym, ◌∙◌, ◌⊎◌, inl, inr, eq_self, Bool-cases, none, some, [], ◌∷◌, PartialEq,
  ◌==◌, eq_iff, if◌then◌else◌, arith,
}
use mathlib.Core.Option.{some-injective}
use gb_mahjong_server_rust.HashMap.{HashMap, get, insert, remove}

module _ {ℓ κ} {K : Type ℓ} {V : Type κ} ⦃e : PartialEq K⦄ where
  pub get-insert :
      (k j : K) (v : V) (m : HashMap K V)
      → get j (insert k v m) ≡ (if k == j then some v else get j m)
  unfolding get insert
  get-insert k j v [] = refl
  get-insert k j v ((i, w) ∷ m) =
      ground (arith, eq_iff k j, eq_iff i k, eq_iff i j, get-insert k j v m)

  pub get-remove :
      (k j : K) (m : HashMap K V) → get j (remove k m) ≡ (if k == j then none else get j m)
  unfolding get remove
  get-remove k j [] = ground arith
  get-remove k j ((i, w) ∷ m) = ground (arith, eq_iff k j, eq_iff i k, eq_iff i j, get-remove k j m)

  -- No key has two entries.
  abbrev pub HasDistinctKeys : HashMap K V → Type κ
  HasDistinctKeys [] = Unit
  HasDistinctKeys ((k, v) ∷ m) = (get k m ≡ none) × HasDistinctKeys m

  pub insert-HasDistinctKeys :
      (k : K) (v : V) (m : HashMap K V) → HasDistinctKeys m → HasDistinctKeys (insert k v m)
  unfolding insert get
  insert-HasDistinctKeys k v [] h = ground arith
  insert-HasDistinctKeys k v ((i, w) ∷ m) h =
      ground (arith, eq_iff i k, eq_iff k i, get-insert k i v m, insert-HasDistinctKeys k v m h.1)

  pub get-insert_same : (k : K) (v : V) (m : HashMap K V) → get k (insert k v m) ≡ some v
  get-insert_same k v m = get-insert k k v m ∙ rw (eq_self k)

  pub get-insert_other :
      (k j : K) (v : V) (m : HashMap K V) → k ≢ j → get j (insert k v m) ≡ get j m
  get-insert_other k j v m apart = get-insert k j v m ∙ ground (arith, eq_iff k j)

  -- What a key has after an insertion was inserted, or was there.
  pub insert_cases :
      (k j : K) (v u : V) (m : HashMap K V)
      → get j (insert k v m) ≡ some u
      → ((k ≡ j) × (u ≡ v)) ⊎ ((k ≢ j) × (get j m ≡ some u))
  insert_cases k j v u m found = elim (Bool-cases (k == j)) [
    | inl same ↦
        inl ((eq_iff k j).0 same, some-injective u v (sym found ∙ get-insert k j v m ∙ rw same))
    | inr apart ↦
        inr (λ same. ground (arith, eq_iff k j), sym (get-insert k j v m ∙ rw apart) ∙ found)
  ]
