-- ===== src/HashMap/Values.antt =====
-- What an insertion does to the number of entries and to a test of all values.
use gb_mahjong_server_rust.Prelude.{
  ◌≡◌, refl, Bool, true, false, some, [], ◌∷◌, PartialEq, eq_iff, eq_self, all, arith,
}
use gb_mahjong_server_rust.HashMap.{HashMap, get, insert, values, len}
use gb_mahjong_server_rust.HashMap.Laws.{HasDistinctKeys}

module _ {ℓ κ} {K : Type ℓ} {V : Type κ} ⦃e : PartialEq K⦄ where
  pub len-insert_old :
      (k : K) (v v' : V) (m : HashMap K V) → get k m ≡ some v → len (insert k v' m) ≡ len m
  unfolding get insert
  len-insert_old k v v' [] h = cc
  len-insert_old k v v' ((i, w) ∷ m) h = ground (arith, len-insert_old k v v' m)

  pub all-insert_old :
      (q : V → Bool) (k : K) (v v' : V) (m : HashMap K V)
      → get k m ≡ some v
      → q v' ≡ q v
      → all q (values (insert k v' m)) ≡ all q (values m)
  unfolding get insert
  all-insert_old q k v v' [] h same = cc
  all-insert_old q k v v' ((i, w) ∷ m) h same = ground (arith, all-insert_old q k v v' m)

  pub all-insert-false :
      (q : V → Bool) (k : K) (v : V) (m : HashMap K V)
      → q v ≡ false
      → all q (values (insert k v m)) ≡ false
  unfolding insert
  all-insert-false q k v [] no_v = ground arith
  all-insert-false q k v ((i, w) ∷ m) no_v = ground (arith, all-insert-false q k v m)

  -- Every value that a key has passes the test, if all do.
  pub all-get :
      (q : V → Bool) (k : K) (v : V) (m : HashMap K V)
      → all q (values m) ≡ true
      → get k m ≡ some v
      → q v ≡ true
  unfolding get
  all-get q k v [] h found = cc
  all-get q k v ((i, w) ∷ m) h found = ground (arith, all-get q k v m)

  -- The converse, where no key has two entries.
  pub all-of-get :
      (q : V → Bool) (m : HashMap K V)
      → HasDistinctKeys m
      → ((k : K) (v : V) → get k m ≡ some v → q v ≡ true)
      → all q (values m) ≡ true
  unfolding get
  all-of-get q [] h each = refl
  all-of-get q ((i, w) ∷ m) h each =
      let first : q w ≡ true = each i w (rw (eq_self i) refl) in
      let rest : all q (values m) ≡ true =
        all-of-get q m h.1 (λ k v found. each k v (kept k v found)) in
      rw (first, rest) refl
    where
      kept : (k : K) (v : V) → get k m ≡ some v → get k ((i, w) ∷ m) ≡ some v
      kept k v found = ground (arith, eq_iff i k, h.0)
