-- ===== src/Room/Request/Judged.antt =====
-- Parses that hand a value on unchanged, or refuse it (src/room.rs: parse_client_tile_value,
-- parse_client_seat_value, parse_client_claim_kind_value, parse_client_win_type_value).
use gb_mahjong_server_rust.Prelude.{
  ℕ, ◌≡◌, refl, ◌⊎◌, inl, inr, Bool, true, false, ◌&&◌, List, [], ◌∷◌, Result, ok, err, ◌>>=◌,
  collect, all, Bool-cases, Result-cases, ◌∙◌, String,
}
use gb_mahjong_server_rust.Prelude.Int.{ℤ}
use gb_mahjong_server_rust.Prelude.Text.{◌+++◌}
use gb_mahjong_server_rust.Prelude.Decimal.{show_ℤ}
use gb_mahjong_server_rust.Proto.Enum.Laws.{in_schema}
use gb_mahjong_server_rust.Proto.Client.{RejectCode, ClaimKind, WinType}
use gb_mahjong_server_rust.Room.Parse.{
  ActionValidationError, parse_client_seat_value, parse_client_tile_value,
  parse_client_claim_kind_value, parse_client_win_type_value, parse_client_claim_kind,
  parse_client_win_type,
}
use gb_mahjong_server_rust.Room.Parse.Agreement.{
  carried, parse_client_tile_value_lem, parse_client_seat_value_lem,
  parse_client_claim_kind_value_lem, parse_client_win_type_value_lem,
}

-- The test decides between the value and a refusal.
abbrev pub Judged : {A : Type 0} → Bool → Result ActionValidationError A → A → Type 0
Judged b r x = ((b ≡ true) × (r ≡ ok x)) ⊎ ((b ≡ false) × (e : ActionValidationError) × (r ≡ err e))

pub Judged-ok : {A : Type 0} (x : A) → Judged true (ok x) x
Judged-ok x = inl (refl, refl)

pub Judged-bind :
    {A B : Type 0} (b c : Bool) (r : Result ActionValidationError A) (x : A)
    (f : A → Result ActionValidationError B) (z : B)
    → Judged b r x
    → Judged c (f x) z
    → Judged (b && c) (r >>= f) z
Judged-bind b c r x f z (inl (holds, found)) (inl (holds', found')) =
    inl (rw (holds, holds') refl, rw found found')
Judged-bind b c r x f z (inl (holds, found)) (inr (fails, e, lost)) =
    inr (rw (holds, fails) refl, e, rw found lost)
Judged-bind b c r x f z (inr (fails, e, lost)) _ = inr (rw fails refl, e, rw lost refl)

-- What a success leads to.
pub bound :
    {A B : Type 0} {r : Result ActionValidationError A} {x : A}
    (f : A → Result ActionValidationError B) {z : Result ActionValidationError B}
    → r ≡ ok x
    → f x ≡ z
    → (r >>= f) ≡ z
bound f found e = rw found e

carried-Judged :
    (count : ℕ) (reject_code : RejectCode) (what : String) (v : ℤ)
    → Judged (in_schema count v) (carried count reject_code what v) v
carried-Judged count reject_code what v = elim (Bool-cases (in_schema count v)) [
  | inl holds ↦ inl (holds, rw holds refl)
  | inr fails ↦
      inr (fails, record { reject_code = reject_code; message = what +++ show_ℤ v }, rw fails refl)
]

pub tile-Judged : (v : ℤ) → Judged (in_schema 44 v) (parse_client_tile_value v) v
tile-Judged v = rw (parse_client_tile_value_lem v) (carried-Judged 44 _ _ v)

pub seat-Judged : (v : ℤ) → Judged (in_schema 5 v) (parse_client_seat_value v) v
seat-Judged v = rw (parse_client_seat_value_lem v) (carried-Judged 5 _ _ v)

pub claim_kind-Judged : (v : ℤ) → Judged (in_schema 6 v) (parse_client_claim_kind_value v) v
claim_kind-Judged v = rw (parse_client_claim_kind_value_lem v) (carried-Judged 6 _ _ v)

pub win_type-Judged : (v : ℤ) → Judged (in_schema 5 v) (parse_client_win_type_value v) v
win_type-Judged v = rw (parse_client_win_type_value_lem v) (carried-Judged 5 _ _ v)

pub tiles-Judged :
    (vs : List ℤ) → Judged (all (in_schema 44) vs) (collect parse_client_tile_value vs) vs
unfolding collect
tiles-Judged [] = Judged-ok []
tiles-Judged (v ∷ vs) = elim (tile-Judged v) [
  | inr (fails, e, lost) ↦ inr (rw fails refl, e, rw (lost, collect) refl)
  | inl (holds, found) ↦ elim (tiles-Judged vs) [
    | inr (fails, e, lost) ↦ inr (rw (holds, fails) refl, e, rw (found, collect, lost) refl)
    | inl (holds', found') ↦ inl (rw (holds, holds') refl, rw (found, collect, found') refl)
  ]
]

pub tile_ok : (v : ℤ) → in_schema 44 v ≡ true → parse_client_tile_value v ≡ ok v
tile_ok v h = parse_client_tile_value_lem v ∙ rw h refl

pub seat_ok : (v : ℤ) → in_schema 5 v ≡ true → parse_client_seat_value v ≡ ok v
seat_ok v h = parse_client_seat_value_lem v ∙ rw h refl

-- A kind that may be handed on can also be named.
pub claim_kind_ok :
    (v : ℤ) → in_schema 6 v ≡ true → (a : ClaimKind) × (parse_client_claim_kind v ≡ ok a)
unfolding parse_client_claim_kind_value
claim_kind_ok v h = elim (Result-cases (parse_client_claim_kind v)) [
  | inl found ↦ found
  | inr (e, lost) ↦
      let value : parse_client_claim_kind_value v ≡ err e = rw lost refl in
      let value' : parse_client_claim_kind_value v ≡ ok v =
        parse_client_claim_kind_value_lem v ∙ rw h refl in
      cc
]

pub win_type_ok : (v : ℤ) → in_schema 5 v ≡ true → (a : WinType) × (parse_client_win_type v ≡ ok a)
unfolding parse_client_win_type_value
win_type_ok v h = elim (Result-cases (parse_client_win_type v)) [
  | inl found ↦ found
  | inr (e, lost) ↦
      let value : parse_client_win_type_value v ≡ err e = rw lost refl in
      let value' : parse_client_win_type_value v ≡ ok v =
        parse_client_win_type_value_lem v ∙ rw h refl in
      cc
]
