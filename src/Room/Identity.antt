-- ===== src/Room/Identity.antt =====
-- A room task keeps its room's id (src/room.rs: RoomState.room_id).
use gb_mahjong_server_rust.Prelude.{◌≡◌, refl, ap, ◌∙◌, inl, inr, Option-cases, Bool, if◌then◌else◌}
use gb_mahjong_server_rust.HashMap.{get}
use gb_mahjong_server_rust.Proto.Client.{Seat, PlayerStatus, SyncReason, seat_eq}
use gb_mahjong_server_rust.Room.State.{RoomState, Room}
use gb_mahjong_server_rust.Room.Seating.{
  resume_token_for, seat_player, set_auto_play, set_status, update_phase, mark_ready,
  handle_auto_play_toggle,
}
use gb_mahjong_server_rust.Room.Reconnect.{attach, detach, drop_connection}
use gb_mahjong_server_rust.Room.Seating.Cases.{
  join_cases, ready_cases, resume_cases, disconnect_cases, toggle_cases,
}
use gb_mahjong_server_rust.Room.Seating.Renumber.{
  Renumbers, broadcast_sync_state-Renumbers, send_reject_to_connection-Renumbers,
  respond_join-Renumbers, refuse_resume-Renumbers, admit-Renumbers, accept_resume-Renumbers,
  leave-Renumbers,
}
use gb_mahjong_server_rust.Room.Action.{
  call_engine, reject_action, RoomCommand, join, ready, resume_session, player_action, disconnect,
  handle_command,
}
use gb_mahjong_server_rust.Room.Action.Cases.{action_cases}

room_id-Renumbers : (s : RoomState) {s' : RoomState} → Renumbers s s' → s'.room_id ≡ s.room_id
room_id-Renumbers s (n, e) = ap (λ (t : RoomState). t.room_id) e

room_id-set_status :
    (seat : Seat) (status : PlayerStatus) (s : RoomState)
    → (set_status seat status s).room_id ≡ s.room_id
unfolding set_status
room_id-set_status seat status s = elim (Option-cases (get seat s.players_by_seat)) [
  | inl e ↦ rw (e, set_status)
  | inr (player, e) ↦ rw (e, set_status)
]

module _ (r : Room) where
  abbrev Keeps : Room → Type 0
  Keeps r' = r'.state.room_id ≡ r.state.room_id

  mark_ready-room_id : (seat : Seat) (is_ready : Bool) → Keeps (mark_ready seat is_ready r)
  unfolding mark_ready update_phase
  mark_ready-room_id seat is_ready =
      let status = if is_ready then PlayerStatus.ready else PlayerStatus.joined in
      let marked : Room = record r { state = update_phase (set_status seat status r.state) } in
      room_id-Renumbers marked.state (broadcast_sync_state-Renumbers _ marked)
      ∙ room_id-set_status seat status r.state

  toggle-room_id : (seat : Seat) (enabled : Bool) → Keeps (handle_auto_play_toggle seat enabled r)
  unfolding set_auto_play
  toggle-room_id seat enabled =
      toggle_cases Keeps r seat enabled (λ _. refl)
        (λ player _.
          let set : Room = record r { state = set_auto_play seat enabled player r.state } in
          room_id-Renumbers set.state (broadcast_sync_state-Renumbers SyncReason.server_resync set))

  pub room_id-handle_command : (command : RoomCommand) → Keeps (handle_command command r)
  unfolding handle_command seat_player attach detach drop_connection call_engine reject_action
  room_id-handle_command (join request_id connection request) =
      join_cases Keeps r request_id connection request
        (λ seat _.
          room_id-Renumbers r.state (respond_join-Renumbers request_id connection _ _ _ _ _ r))
        (λ _ _.
          room_id-Renumbers r.state (respond_join-Renumbers request_id connection _ _ _ _ _ r))
        (λ seat _ _.
          room_id-Renumbers
            (seat_player request connection seat (resume_token_for r.state.room_id request.user_id)
              r.state)
            (admit-Renumbers request_id connection request seat r))
  room_id-handle_command (ready request_id connection_id request) =
      ready_cases Keeps r request_id connection_id request
        (λ _.
          room_id-Renumbers r.state
            (send_reject_to_connection-Renumbers connection_id request_id _ _ _ _ r))
        (λ seat _. mark_ready-room_id seat request.ready)
  room_id-handle_command (resume_session request_id connection request) =
      resume_cases Keeps r request_id connection request
        (λ _.
          room_id-Renumbers r.state (refuse_resume-Renumbers request_id connection request _ _ r))
        (λ _ _ _.
          room_id-Renumbers r.state (refuse_resume-Renumbers request_id connection request _ _ r))
        (λ _ _ _ _ _.
          room_id-Renumbers r.state (refuse_resume-Renumbers request_id connection request _ _ r))
        (λ seat player _ _ _.
          room_id-Renumbers (attach connection seat player r.state)
            (accept_resume-Renumbers connection seat player r))
  room_id-handle_command (player_action request_id connection_id request) =
      action_cases Keeps r request_id connection_id request
        (λ code message.
          room_id-Renumbers r.state
            (send_reject_to_connection-Renumbers connection_id request_id code message _ _ r))
        (λ seat validate_request _. room_id-Renumbers r.state (
          send_reject_to_connection-Renumbers connection_id request_id _ _ _ _
            (call_engine validate_request r).1))
        (λ seat toggle _ _. toggle-room_id seat toggle.enabled)
  room_id-handle_command (disconnect connection_id) =
      disconnect_cases Keeps r connection_id (λ _. refl) (λ _ _. refl)
        (λ user_id seat player _ _ _.
          room_id-Renumbers (detach seat player (drop_connection connection_id r.state)) (
            leave-Renumbers seat player
              (record r { state = drop_connection connection_id r.state })))
