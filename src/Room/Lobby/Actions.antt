-- ===== src/Room/Lobby/Actions.antt =====
-- What a player's action does to the lobby (src/room.rs: handle_player_action,
-- handle_auto_play_toggle).
use mathlib.Core.Option.{none-ne-some}
use gb_mahjong_server_rust.Prelude.{
  ◌≡◌, refl, sym, ◌∙◌, inl, inr, Bool, true, false, Option, none, some, String, ◌==◌, ◌&&◌,
  string_eq, if◌then◌else◌, Option-cases, Bool-cases,
}
use gb_mahjong_server_rust.Proto.Client.{
  Seat, RejectCode, SyncReason, Action, auto_play_toggle, PlayerActionRequest, seat_eq,
}
use gb_mahjong_server_rust.Room.State.{RoomState, Room, seat_for_connection, round_id}
use gb_mahjong_server_rust.Room.Seating.{set_auto_play, handle_auto_play_toggle}
use gb_mahjong_server_rust.Room.Seating.Cases.{toggle_cases}
use gb_mahjong_server_rust.Room.Seating.Renumber.{
  broadcast_sync_state-Renumbers, send_reject_to_connection-Renumbers,
}
use gb_mahjong_server_rust.Room.Action.{reject_action, call_engine, act, handle_player_action}
use gb_mahjong_server_rust.Room.Action.Cases.{submit_cases}
use gb_mahjong_server_rust.Room.Invariant.{IsWellFormed}
use gb_mahjong_server_rust.Room.Lobby.{Member, change_of, switch}
use gb_mahjong_server_rust.Room.Lobby.View.{view, view-Renumbers}
use gb_mahjong_server_rust.Room.Lobby.Tables.{change-view, seat_for_connection-slot}

reject_action-view :
    (r : Room) (request_id connection_id : String) (request : PlayerActionRequest)
    (reject_code : RejectCode) (message : String)
    → view (reject_action request_id connection_id request reject_code message r).state
      ≡ view r.state
unfolding reject_action
reject_action-view r request_id connection_id request reject_code message =
    view-Renumbers r.state
      (send_reject_to_connection-Renumbers connection_id request_id reject_code message _ _ r)

module _ (r : Room) (v : IsWellFormed r.state) where
  abbrev s : RoomState
  s = r.state

  handle_auto_play_toggle-view :
      (connection_id : String) (seat : Seat) (enabled : Bool)
      → seat_for_connection s connection_id ≡ some seat
      → view (handle_auto_play_toggle seat enabled r).state
        ≡ change_of connection_id (λ (m : Member). record m { auto_play = enabled }) (view s)
  unfolding set_auto_play
  handle_auto_play_toggle-view connection_id seat enabled found =
      let set : Member → Member = λ m. record m { auto_play = enabled } in
      toggle_cases (λ (r' : Room). view r'.state ≡ change_of connection_id set (view s)) r seat
        enabled
        (λ gone.
          let (p, there) = seat_for_connection-slot s v connection_id seat found in
          absurd (none-ne-some p (sym gone ∙ there)))
        (λ p there.
          view-Renumbers _ (
            broadcast_sync_state-Renumbers SyncReason.server_resync
              (record r { state = set_auto_play seat enabled p s }))
          ∙ change-view s v connection_id set seat p (record p { auto_play_enabled = enabled })
              found there refl)

  act-view :
      (request_id connection_id : String) (request : PlayerActionRequest) (seat : Seat)
      (action : Option Action)
      → seat_for_connection s connection_id ≡ some seat
      → view (act request_id connection_id request seat action r).state
        ≡ switch connection_id action (view s)
  unfolding act call_engine
  act-view request_id connection_id request seat none found =
      reject_action-view r request_id connection_id request _ _
  act-view request_id connection_id request seat (some (auto_play_toggle toggle)) found =
      handle_auto_play_toggle-view connection_id seat toggle.enabled found
  act-view request_id connection_id request seat (some _) found =
      submit_cases (λ (r' : Room). view r'.state ≡ view s) r request_id connection_id request seat
        (reject_action-view r request_id connection_id request)
        (λ validate_request _.
          reject_action-view (call_engine validate_request r).1 request_id connection_id request _
            _)

  switch_unknown :
      (connection_id : String) (action : Option Action) (current : Bool)
      → seat_for_connection s connection_id ≡ none
      → view s ≡ (if current then switch connection_id action (view s) else view s)
  unfolding change_of
  switch_unknown connection_id action false unknown = refl
  switch_unknown connection_id none true unknown = refl
  switch_unknown connection_id (some (auto_play_toggle toggle)) true unknown =
      sym (rw (unknown, change_of) refl)
  switch_unknown connection_id (some _) true unknown = refl

  pub handle_player_action-view :
      (request_id connection_id : String) (request : PlayerActionRequest)
      → view (handle_player_action request_id connection_id request r).state ≡ (
          if request.match_id == s.match_id && request.round_id == round_id s
          then switch connection_id request.action (view s)
          else view s)
  unfolding handle_player_action
  handle_player_action-view request_id connection_id request =
      elim (Option-cases (seat_for_connection s connection_id)) [
        | inl e ↦
            rw (e, handle_player_action)
              (reject_action-view r request_id connection_id request _ _
                ∙ switch_unknown connection_id request.action _ e)
        | inr (seat, found) ↦ elim (Bool-cases (request.match_id == s.match_id)) [
          | inr other ↦
              rw (found, handle_player_action, other)
                (reject_action-view r request_id connection_id request _ _)
          | inl same ↦ elim (Bool-cases (request.round_id == round_id s)) [
            | inr late ↦
                rw (found, handle_player_action, same, late)
                  (reject_action-view r request_id connection_id request _ _)
            | inl now ↦
                rw (found, handle_player_action, same, now)
                  (act-view request_id connection_id request seat request.action found)
          ]
        ]
      ]
