-- ===== src/Room/Action/Numbers.antt =====
-- With which code an action is refused whose numbers are not of the schema (src/room.rs:
-- build_candidate_action, parse_client_*_value).
use gb_mahjong_server_rust.Prelude.{
  ℕ, ◌≡◌, refl, ◌∙◌, inl, inr, true, false, List, [], ◌∷◌, Result, ok, err, ◌>>=◌, ◌&&◌, all,
  collect, if◌then◌else◌, string_eq, arith, Bool-cases, String,
}
use gb_mahjong_server_rust.Prelude.Int.{ℤ}
use gb_mahjong_server_rust.Prelude.Text.{◌+++◌}
use gb_mahjong_server_rust.Prelude.Decimal.{show_ℤ}
use gb_mahjong_server_rust.Proto.Enum.Laws.{in_schema}
use gb_mahjong_server_rust.Proto.Client.{
  Seat, RejectCode, Action, discard, claim, declare_win, pass, supplemental_kong, auto_play_toggle,
}
use gb_mahjong_server_rust.Room.State.{RoomState}
use gb_mahjong_server_rust.Room.Parse.{
  ActionValidationError, parse_client_tile_value, parse_client_seat_value,
  parse_client_claim_kind_value, parse_client_win_type_value,
}
use gb_mahjong_server_rust.Room.Parse.Agreement.{
  carried, parse_client_tile_value_lem, parse_client_seat_value_lem,
  parse_client_claim_kind_value_lem, parse_client_win_type_value_lem,
}
use gb_mahjong_server_rust.Room.Request.Judged.{tile_ok, tiles-Judged}
use gb_mahjong_server_rust.Room.Request.Numbers.{is_in_schema}
use gb_mahjong_server_rust.Room.Request.Candidate.{build_candidate_action}

-- The code of the first number of an action that is not of the schema.
abbrev pub bad_number : Action → RejectCode
bad_number (discard a) = RejectCode.invalid_tile
bad_number (claim a) =
    if in_schema 6 a.claim_kind
    then if in_schema 44 a.target_tile && all (in_schema 44) a.consume_tiles
      then RejectCode.invalid_request
      else RejectCode.invalid_tile
    else RejectCode.invalid_request
bad_number (declare_win a) =
    if in_schema 5 a.win_type
    then if in_schema 44 a.winning_tile then RejectCode.invalid_request else RejectCode.invalid_tile
    else RejectCode.invalid_request
bad_number (pass a) = RejectCode.unspecified
bad_number (supplemental_kong a) = RejectCode.invalid_tile
bad_number (auto_play_toggle a) = RejectCode.action_not_available

-- A result that refuses with the code.
abbrev pub Refuses : {A : Type 0} → Result ActionValidationError A → RejectCode → Type 0
Refuses r code = (message : String) × (r ≡ err (record { reject_code = code; message = message }))

refused_first :
    {A B : Type 0} (r : Result ActionValidationError A) (f : A → Result ActionValidationError B)
    (code : RejectCode)
    → Refuses r code
    → Refuses (r >>= f) code
refused_first r f code (message, e) = (message, rw e refl)

refused_later :
    {A B : Type 0} (r : Result ActionValidationError A) (x : A)
    (f : A → Result ActionValidationError B) (code : RejectCode)
    → r ≡ ok x
    → Refuses (f x) code
    → Refuses (r >>= f) code
refused_later r x f code found (message, e) = (message, rw (found, e) refl)

carried_refused :
    (count : ℕ) (code : RejectCode) (what : String) (v : ℤ)
    → in_schema count v ≡ false
    → Refuses (carried count code what v) code
carried_refused count code what v h = (what +++ show_ℤ v, rw h refl)

module _ (v : ℤ) where
  tile_refused :
      in_schema 44 v ≡ false → Refuses (parse_client_tile_value v) RejectCode.invalid_tile
  tile_refused h =
      let (message, e) = carried_refused 44 _ _ v h in (message, parse_client_tile_value_lem v ∙ e)

  seat_refused :
      in_schema 5 v ≡ false → Refuses (parse_client_seat_value v) RejectCode.invalid_request
  seat_refused h =
      let (message, e) = carried_refused 5 _ _ v h in (message, parse_client_seat_value_lem v ∙ e)

  claim_kind_refused :
      in_schema 6 v ≡ false → Refuses (parse_client_claim_kind_value v) RejectCode.invalid_request
  claim_kind_refused h =
      let (message, e) = carried_refused 6 _ _ v h in
      (message, parse_client_claim_kind_value_lem v ∙ e)

  win_type_refused :
      in_schema 5 v ≡ false → Refuses (parse_client_win_type_value v) RejectCode.invalid_request
  win_type_refused h =
      let (message, e) = carried_refused 5 _ _ v h in
      (message, parse_client_win_type_value_lem v ∙ e)

tiles_refused :
    (vs : List ℤ)
    → all (in_schema 44) vs ≡ false
    → Refuses (collect parse_client_tile_value vs) RejectCode.invalid_tile
unfolding collect
tiles_refused [] h = cc
tiles_refused (v ∷ vs) h = elim (Bool-cases (in_schema 44 v)) [
  | inr bad ↦ refused_first _ _ _ (tile_refused v bad)
  | inl good ↦
      let rest : all (in_schema 44) vs ≡ false = ground arith in
      refused_later _ v _ _ (tile_ok v good) (refused_first _ _ _ (tiles_refused vs rest))
]

tiles_ok : (vs : List ℤ) → all (in_schema 44) vs ≡ true → collect parse_client_tile_value vs ≡ ok vs
tiles_ok vs h = elim (tiles-Judged vs) [ inl (_, found) ↦ found | inr (fails, _, _) ↦ cc ]

kind_ok : (v : ℤ) → in_schema 6 v ≡ true → parse_client_claim_kind_value v ≡ ok v
kind_ok v h = parse_client_claim_kind_value_lem v ∙ rw h refl

win_ok : (v : ℤ) → in_schema 5 v ≡ true → parse_client_win_type_value v ≡ ok v
win_ok v h = parse_client_win_type_value_lem v ∙ rw h refl

pub candidate-Refuses :
    (s : RoomState) (seat : Seat) (action : Action)
    → is_in_schema action ≡ false
    → Refuses (build_candidate_action s seat action) (bad_number action)
unfolding build_candidate_action
candidate-Refuses s seat (discard a) h = refused_first _ _ _ (tile_refused a.tile (ground arith))
candidate-Refuses s seat (claim a) h = elim (Bool-cases (in_schema 6 a.claim_kind)) [
  | inr bad ↦ rw bad (refused_first _ _ _ (claim_kind_refused a.claim_kind bad))
  | inl kind ↦ elim (Bool-cases (in_schema 44 a.target_tile)) [
    | inr bad ↦
        rw (kind, bad)
          (refused_later _ a.claim_kind _ _ (kind_ok a.claim_kind kind)
            (refused_first _ _ _ (tile_refused a.target_tile bad)))
    | inl tile ↦ elim (Bool-cases (all (in_schema 44) a.consume_tiles)) [
      | inr bad ↦
          rw (kind, tile, bad)
            (refused_later _ a.claim_kind _ _ (kind_ok a.claim_kind kind) (
              refused_later _ a.target_tile _ _ (tile_ok a.target_tile tile)
                (refused_first _ _ _ (tiles_refused a.consume_tiles bad))))
      | inl tiles ↦
          rw (kind, tile, tiles)
            (refused_later _ a.claim_kind _ _ (kind_ok a.claim_kind kind) (
              refused_later _ a.target_tile _ _ (tile_ok a.target_tile tile) (
                refused_later _ a.consume_tiles _ _ (tiles_ok a.consume_tiles tiles)
                  (refused_first _ _ _ (seat_refused a.source_seat (ground arith))))))
    ]
  ]
]
candidate-Refuses s seat (declare_win a) h = elim (Bool-cases (in_schema 5 a.win_type)) [
  | inr bad ↦ rw bad (refused_first _ _ _ (win_type_refused a.win_type bad))
  | inl kind ↦ elim (Bool-cases (in_schema 44 a.winning_tile)) [
    | inr bad ↦
        rw (kind, bad)
          (refused_later _ a.win_type _ _ (win_ok a.win_type kind)
            (refused_first _ _ _ (tile_refused a.winning_tile bad)))
    | inl tile ↦
        rw (kind, tile)
          (refused_later _ a.win_type _ _ (win_ok a.win_type kind) (
            refused_later _ a.winning_tile _ _ (tile_ok a.winning_tile tile)
              (refused_first _ _ _ (seat_refused a.source_seat (ground arith)))))
  ]
]
candidate-Refuses s seat (pass a) h = cc
candidate-Refuses s seat (supplemental_kong a) h =
    refused_first _ _ _ (tile_refused a.tile (ground arith))
candidate-Refuses s seat (auto_play_toggle a) h = (_, refl)
