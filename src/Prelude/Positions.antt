-- ===== src/Prelude/Positions.antt =====
-- Lists by position.
use gb_mahjong_server_rust.Prelude.Lists.{All}
use Prim.Native.Nat.{ℕ, zero, suc, ◌+◌}
use mathlib.Core.Path.{◌≡◌}
use mathlib.Core.Option.{Option, none, some}
use mathlib.Core.List.{List, [], ◌∷◌, ◌++◌}
use native.Mathlib.Omega.{arith}

module _ {ℓ} {A : Type ℓ} where
  abbrev pub get_elem? : List A → ℕ → Option A
  get_elem? [] i = none
  get_elem? (x ∷ xs) zero = some x
  get_elem? (x ∷ xs) (suc i) = get_elem? xs i

  -- A write out of bounds changes nothing.
  abbrev pub set : List A → ℕ → A → List A
  set [] i v = []
  set (x ∷ xs) zero v = v ∷ xs
  set (x ∷ xs) (suc i) v = x ∷ set xs i v

  abbrev pub remove_at : List A → ℕ → List A
  remove_at [] i = []
  remove_at (x ∷ xs) zero = xs
  remove_at (x ∷ xs) (suc i) = x ∷ remove_at xs i

  module _ {κ} (P : A → Type κ) where
    pub remove_at-All : (xs : List A) (i : ℕ) → All P xs → All P (remove_at xs i)
    remove_at-All [] i h = h
    remove_at-All (y ∷ ys) zero h = h.1
    remove_at-All (y ∷ ys) (suc i) h = (h.0, remove_at-All ys i h.1)

    pub All-get_elem? : (xs : List A) (i : ℕ) (x : A) → get_elem? xs i ≡ some x → All P xs → P x
    All-get_elem? [] i x e h = cc
    All-get_elem? (y ∷ ys) zero x e h = ground arith
    All-get_elem? (y ∷ ys) (suc i) x e h = All-get_elem? ys i x e h.1

    pub set-All : (xs : List A) (i : ℕ) (x : A) → P x → All P xs → All P (set xs i x)
    set-All [] i x p h = h
    set-All (y ∷ ys) zero x p h = (p, h.1)
    set-All (y ∷ ys) (suc i) x p h = (h.0, set-All ys i x p h.1)

    pub append-All : (xs : List A) (x : A) → P x → All P xs → All P (xs ++ x ∷ [])
    append-All [] x p h = (p, tt)
    append-All (y ∷ ys) x p h = (h.0, append-All ys x p h.1)

  pub map-All {κ μ} :
      {P : A → Type κ} {Q : A → Type μ}
      → ((x : A) → P x → Q x)
      → (xs : List A) → All P xs
      → All Q xs
  map-All f [] h = tt
  map-All f (x ∷ xs) h = (f x h.0, map-All f xs h.1)

  -- The sum of a weight over a list.
  module _ (w : A → ℕ) where
    abbrev pub sum_of : List A → ℕ
    sum_of [] = 0
    sum_of (x ∷ xs) = w x + sum_of xs

    pub sum_of-set :
        (xs : List A) (i : ℕ) (x y : A)
        → get_elem? xs i ≡ some x
        → sum_of (set xs i y) + w x ≡ sum_of xs + w y
    sum_of-set [] i x y e = cc
    sum_of-set (z ∷ zs) zero x y e = ground arith
    sum_of-set (z ∷ zs) (suc i) x y e = omega (arith, sum_of-set zs i x y e)
