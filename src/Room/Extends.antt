-- ===== src/Room/Extends.antt =====
-- A room only adds to what was sent (src/room.rs: the handlers).
use gb_mahjong_server_rust.Prelude.{
  ℕ, ◌≡◌, refl, sym, ap, ◌∙◌, Bool, true, false, inl, inr, List, [], ◌++◌, String, append-nil,
  append_assoc, Option-cases, if◌then◌else◌,
}
use gb_mahjong_server_rust.HashMap.{get}
use gb_mahjong_server_rust.Proto.Client.{
  Seat, RejectCode, PlayerStatus, SyncReason, ServerFrame, JoinRoomRequest, ResumeSessionRequest,
  seat_eq,
}
use gb_mahjong_server_rust.World.{
  ConnectionHandle, ConnectionSender, send, send_frame, unix_time_ms,
}
use gb_mahjong_server_rust.Room.State.{PlayerSlot, Room}
use gb_mahjong_server_rust.Room.Frames.{build_sync_state_for}
use gb_mahjong_server_rust.Room.Send.{
  broadcast_sync_state, broadcast_connection_changed, reject_on, reject_target,
  send_reject_to_connection,
}
use gb_mahjong_server_rust.Room.Send.Delivery.{broadcast_sync_state-Delivers}
use gb_mahjong_server_rust.Room.Send.Fanout.{broadcast_connection_changed-fanout}
use gb_mahjong_server_rust.Room.Seating.{
  respond_join, resume_token_for, seat_player, admit, mark_ready, set_auto_play, set_status,
  update_phase, handle_auto_play_toggle,
}
use gb_mahjong_server_rust.Room.Reconnect.{
  refuse_resume, attach, sync_resumed, accept_resume, drop_connection, leave, detach,
}
use gb_mahjong_server_rust.Room.Seating.Cases.{
  join_cases, ready_cases, resume_cases, disconnect_cases, toggle_cases,
}
use gb_mahjong_server_rust.Room.Action.{
  call_engine, reject_action, verdict, RoomCommand, join, ready, resume_session, player_action,
  disconnect, handle_command,
}
use gb_mahjong_server_rust.Room.Action.Cases.{action_cases}

-- What was sent is still there, and something may stand behind it.
abbrev pub Sent : Type 0
Sent = List (ConnectionSender × ServerFrame)

abbrev pub Extends : Sent → Sent → Type 0
Extends sent sent' = (l : Sent) × (sent' ≡ sent ++ l)

pub Extends-refl : (sent : Sent) → Extends sent sent
Extends-refl sent = ([], sym (append-nil sent))

pub Extends-trans : (a : Sent) {b c : Sent} → Extends a b → Extends b c → Extends a c
Extends-trans a (l, e) (l', e') = (l ++ l', e' ∙ ap (λ x. x ++ l') e ∙ append_assoc a l l')

sync-Extends :
    (reason : SyncReason) (r : Room)
    → Extends r.world.sent (broadcast_sync_state reason r).world.sent
sync-Extends reason r = let (l, e, _) = broadcast_sync_state-Delivers reason r in (l, e)

change-Extends :
    (seat : Seat) (connected : Bool) (r : Room)
    → Extends r.world.sent (broadcast_connection_changed seat connected r).world.sent
unfolding broadcast_connection_changed
change-Extends seat connected r = elim (Option-cases (get seat r.state.players_by_seat)) [
  | inl e ↦ rw (e, broadcast_connection_changed) (Extends-refl r.world.sent)
  | inr (player, e) ↦ (_, broadcast_connection_changed-fanout seat connected player r e)
]

reject_on-Extends :
    (tx : ConnectionSender) (request_id : String) (reject_code : RejectCode) (message : String)
    (expected window : ℕ) (r : Room)
    → Extends r.world.sent
        (reject_on tx request_id reject_code message expected window r).world.sent
unfolding reject_on send
reject_on-Extends tx request_id reject_code message expected window r = (_, refl)

reject-Extends :
    (connection_id request_id : String) (reject_code : RejectCode) (message : String)
    (expected window : ℕ) (r : Room)
    → Extends r.world.sent
        (send_reject_to_connection connection_id request_id reject_code message expected window
          r).world.sent
unfolding send_reject_to_connection
reject-Extends connection_id request_id reject_code message expected window r =
    elim (Option-cases (reject_target r.state connection_id)) [
      | inl e ↦ rw (e, send_reject_to_connection) (Extends-refl r.world.sent)
      | inr (tx, e) ↦
          rw (e, send_reject_to_connection)
            (reject_on-Extends tx request_id reject_code message expected window r)
    ]

respond-Extends :
    (request_id : String) (connection : ConnectionHandle) (accepted : Bool)
    (reject_code : RejectCode) (seat : Seat) (resume_token message : String) (r : Room)
    → Extends r.world.sent
        (respond_join request_id connection accepted reject_code seat resume_token message
          r).world.sent
unfolding respond_join send_frame send
respond-Extends request_id connection accepted reject_code seat resume_token message r = (_, refl)

refuse-Extends :
    (request_id : String) (connection : ConnectionHandle) (request : ResumeSessionRequest)
    (reject_code : RejectCode) (message : String) (r : Room)
    → Extends r.world.sent
        (refuse_resume request_id connection request reject_code message r).world.sent
unfolding refuse_resume send_frame send
refuse-Extends request_id connection request reject_code message r = (_, refl)

resumed-Extends :
    (connection : ConnectionHandle) (seat : Seat) (r : Room)
    → Extends r.world.sent (sync_resumed connection seat r).world.sent
unfolding sync_resumed send_frame send build_sync_state_for unix_time_ms
resumed-Extends connection seat r = (_, refl)

two-Extends :
    (reason : SyncReason) (seat : Seat) (connected : Bool) (r : Room)
    → Extends r.world.sent
        (broadcast_connection_changed seat connected (broadcast_sync_state reason r)).world.sent
two-Extends reason seat connected r =
    Extends-trans r.world.sent (sync-Extends reason r) (change-Extends seat connected _)

admit-Extends :
    (request_id : String) (connection : ConnectionHandle) (request : JoinRoomRequest) (seat : Seat)
    (r : Room)
    → Extends r.world.sent (admit request_id connection request seat r).world.sent
unfolding admit
admit-Extends request_id connection request seat r =
    let token = resume_token_for r.state.room_id request.user_id in
    let seated : Room = record r { state = seat_player request connection seat token r.state } in
    Extends-trans r.world.sent (respond-Extends request_id connection true _ seat token _ seated)
      (two-Extends SyncReason.server_resync seat true _)

accept-Extends :
    (connection : ConnectionHandle) (seat : Seat) (player : PlayerSlot) (r : Room)
    → Extends r.world.sent (accept_resume connection seat player r).world.sent
unfolding accept_resume
accept-Extends connection seat player r =
    let attached : Room = record r { state = attach connection seat player r.state } in
    Extends-trans r.world.sent (resumed-Extends connection seat attached)
      (change-Extends seat true _)

module _ (r : Room) where
  abbrev Adds : Room → Type 0
  Adds r' = Extends r.world.sent r'.world.sent

  toggle-Extends : (seat : Seat) (enabled : Bool) → Adds (handle_auto_play_toggle seat enabled r)
  toggle-Extends seat enabled =
      toggle_cases Adds r seat enabled (λ _. Extends-refl r.world.sent)
        (λ player _.
          sync-Extends SyncReason.server_resync
            (record r { state = set_auto_play seat enabled player r.state }))

  mark_ready-Extends : (seat : Seat) (is_ready : Bool) → Adds (mark_ready seat is_ready r)
  unfolding mark_ready
  mark_ready-Extends seat is_ready =
      let status = if is_ready then PlayerStatus.ready else PlayerStatus.joined in
      sync-Extends _ (record r { state = update_phase (set_status seat status r.state) })

  pub handle_command-Extends : (command : RoomCommand) → Adds (handle_command command r)
  unfolding handle_command call_engine reject_action leave
  handle_command-Extends (join request_id connection request) =
      join_cases Adds r request_id connection request
        (λ seat _. respond-Extends request_id connection _ _ _ _ _ r)
        (λ _ _. respond-Extends request_id connection _ _ _ _ _ r)
        (λ seat _ _. admit-Extends request_id connection request seat r)
  handle_command-Extends (ready request_id connection_id request) =
      ready_cases Adds r request_id connection_id request
        (λ _. reject-Extends connection_id request_id _ _ _ _ r)
        (λ seat _. mark_ready-Extends seat request.ready)
  handle_command-Extends (resume_session request_id connection request) =
      resume_cases Adds r request_id connection request
        (λ _. refuse-Extends request_id connection request _ _ r)
        (λ _ _ _. refuse-Extends request_id connection request _ _ r)
        (λ _ _ _ _ _. refuse-Extends request_id connection request _ _ r)
        (λ seat player _ _ _. accept-Extends connection seat player r)
  handle_command-Extends (player_action request_id connection_id request) =
      action_cases Adds r request_id connection_id request
        (λ code message. reject-Extends connection_id request_id code message _ _ r)
        (λ seat validate_request _.
          let (answer, r') = call_engine validate_request r in
          reject-Extends connection_id request_id (verdict answer).0 (verdict answer).1
            request.expected_event_seq request.action_window_id r')
        (λ seat toggle _ _. toggle-Extends seat toggle.enabled)
  handle_command-Extends (disconnect connection_id) =
      disconnect_cases Adds r connection_id (λ _. Extends-refl r.world.sent)
        (λ _ _. Extends-refl r.world.sent)
        (λ user_id seat player _ _ _.
          two-Extends SyncReason.server_resync seat false
            (record r { state = detach seat player (drop_connection connection_id r.state) }))
