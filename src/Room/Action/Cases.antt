-- ===== src/Room/Action/Cases.antt =====
-- To prove something of what an action or a command leaves, prove it on each branch.
use gb_mahjong_server_rust.Prelude.{
  ◌≡◌, refl, Option, none, some, inl, inr, String, ok, ◌==◌, string_eq, Option-cases, Bool-cases,
  Result-cases,
}
use gb_mahjong_server_rust.Proto.Client.{
  Seat, RejectCode, Action, auto_play_toggle, AutoPlayToggleAction, PlayerActionRequest,
}
use gb_mahjong_server_rust.Proto.Engine.{ValidateActionRequest}
use gb_mahjong_server_rust.Room.State.{Room, seat_for_connection, round_id}
use gb_mahjong_server_rust.Room.Seating.{handle_auto_play_toggle}
use gb_mahjong_server_rust.Room.Request.{build_validate_action_request}
use gb_mahjong_server_rust.Room.Action.{
  verdict, call_engine, reject_action, submit, act, handle_player_action,
}

module _ {ℓ} (P : Room → Type ℓ) (r : Room) (request_id connection_id : String)
    (request : PlayerActionRequest) where
  abbrev Refused : Room → Type ℓ
  Refused r' =
      (reject_code : RejectCode) (message : String)
      → P (reject_action request_id connection_id request reject_code message r')

  abbrev Judged : Seat → Type ℓ
  Judged seat =
      (validate_request : ValidateActionRequest)
      → build_validate_action_request r.state seat request ≡ ok validate_request
      → let (answer, r') = call_engine validate_request r in
        P (reject_action request_id connection_id request (verdict answer).0 (verdict answer).1 r')

  pub submit_cases :
      (seat : Seat) → Refused r → Judged seat → P (submit request_id connection_id request seat r)
  unfolding submit
  submit_cases seat refused judged =
      elim (Result-cases (build_validate_action_request r.state seat request)) [
        | inl (validate_request, e) ↦ rw (e, submit) (judged validate_request e)
        | inr (error, e) ↦ rw (e, submit) (refused error.reject_code error.message)
      ]

  act_cases :
      (seat : Seat) (action : Option Action)
      → Refused r
      → Judged seat
      → ((toggle : AutoPlayToggleAction)
          → action ≡ some (auto_play_toggle toggle)
          → P (handle_auto_play_toggle seat toggle.enabled r))
      → P (act request_id connection_id request seat action r)
  unfolding act
  act_cases seat none refused judged toggled = refused _ _
  act_cases seat (some (auto_play_toggle toggle)) refused judged toggled = toggled toggle refl
  act_cases seat (some _) refused judged toggled = submit_cases seat refused judged

  -- One refusal, or a call of the engine and one refusal, or a toggle of a seated player.
  pub action_cases :
      Refused r
      → ((seat : Seat) → Judged seat)
      → ((seat : Seat) (toggle : AutoPlayToggleAction)
          → seat_for_connection r.state connection_id ≡ some seat
          → request.action ≡ some (auto_play_toggle toggle)
          → P (handle_auto_play_toggle seat toggle.enabled r))
      → P (handle_player_action request_id connection_id request r)
  unfolding handle_player_action
  action_cases refused judged toggled =
      elim (Option-cases (seat_for_connection r.state connection_id)) [
        | inl e ↦ rw (e, handle_player_action) (refused _ _)
        | inr (seat, e) ↦ elim (Bool-cases (request.match_id == r.state.match_id)) [
          | inr other ↦ rw (e, handle_player_action, other) (refused _ _)
          | inl same ↦ elim (Bool-cases (request.round_id == round_id r.state)) [
            | inr late ↦ rw (e, handle_player_action, same, late) (refused _ _)
            | inl now ↦
                rw (e, handle_player_action, same, now)
                  (act_cases seat request.action refused (judged seat)
                    (λ toggle is_toggle. toggled seat toggle e is_toggle))
          ]
        ]
      ]
