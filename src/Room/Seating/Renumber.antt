-- ===== src/Room/Seating/Renumber.antt =====
-- Sending changes nothing of a room's state but the next number.
use gb_mahjong_server_rust.Prelude.{ℕ, ◌≡◌, refl, ap, ◌∙◌, Bool, inl, inr, String, Option-cases}
use gb_mahjong_server_rust.HashMap.{get}
use gb_mahjong_server_rust.Proto.Client.{
  Seat, RejectCode, SyncReason, JoinRoomRequest, ResumeSessionRequest, seat_eq,
}
use gb_mahjong_server_rust.World.{ConnectionHandle}
use gb_mahjong_server_rust.Room.State.{PlayerSlot, RoomState, Room}
use gb_mahjong_server_rust.Room.Send.{
  broadcast_sync_state, announce, broadcast_connection_changed, reject_on, reject_target,
  send_reject_to_connection,
}
use gb_mahjong_server_rust.Room.Seating.{respond_join, resume_token_for, seat_player, admit}
use gb_mahjong_server_rust.Room.Reconnect.{
  refuse_resume, attach, sync_resumed, accept_resume, detach, leave,
}

-- `s'` is `s` with another next number.
abbrev pub Renumbers : RoomState → RoomState → Type 0
Renumbers s s' = (n : ℕ) × (s' ≡ record s { next_event_seq = n })

pub Renumbers-refl : (s : RoomState) → Renumbers s s
Renumbers-refl s = (s.next_event_seq, refl)

Renumbers-trans :
    (s : RoomState) {s' s'' : RoomState} → Renumbers s s' → Renumbers s' s'' → Renumbers s s''
Renumbers-trans s (n, e) (m, e') =
    (m, e' ∙ ap (λ (t : RoomState). record t { next_event_seq = m }) e)

pub broadcast_sync_state-Renumbers :
    (reason : SyncReason) (r : Room) → Renumbers r.state (broadcast_sync_state reason r).state
unfolding broadcast_sync_state
broadcast_sync_state-Renumbers reason r = (_, refl)

announce-Renumbers :
    (seat : Seat) (connected : Bool) (player : PlayerSlot) (r : Room)
    → Renumbers r.state (announce seat connected player r).state
unfolding announce
announce-Renumbers seat connected player r = (_, refl)

pub broadcast_connection_changed-Renumbers :
    (seat : Seat) (connected : Bool) (r : Room)
    → Renumbers r.state (broadcast_connection_changed seat connected r).state
unfolding broadcast_connection_changed
broadcast_connection_changed-Renumbers seat connected r =
    elim (Option-cases (get seat r.state.players_by_seat)) [
      | inl e ↦ rw (e, broadcast_connection_changed) (Renumbers-refl r.state)
      | inr (player, e) ↦
          rw (e, broadcast_connection_changed) (announce-Renumbers seat connected player r)
    ]

reject_on-Renumbers :
    (tx : ℕ) (request_id : String) (reject_code : RejectCode) (message : String)
    (expected window : ℕ) (r : Room)
    → Renumbers r.state (reject_on tx request_id reject_code message expected window r).state
unfolding reject_on
reject_on-Renumbers tx request_id reject_code message expected window r = (_, refl)

pub send_reject_to_connection-Renumbers :
    (connection_id request_id : String) (reject_code : RejectCode) (message : String)
    (expected window : ℕ) (r : Room)
    → let r' =
        send_reject_to_connection connection_id request_id reject_code message expected window r in
      Renumbers r.state r'.state
unfolding send_reject_to_connection
send_reject_to_connection-Renumbers connection_id request_id reject_code message expected window r =
    elim (Option-cases (reject_target r.state connection_id)) [
      | inl e ↦ rw (e, send_reject_to_connection) (Renumbers-refl r.state)
      | inr (tx, e) ↦
          rw (e, send_reject_to_connection)
            (reject_on-Renumbers tx request_id reject_code message expected window r)
    ]

pub respond_join-Renumbers :
    (request_id : String) (connection : ConnectionHandle) (accepted : Bool)
    (reject_code : RejectCode) (seat : Seat) (resume_token message : String) (r : Room)
    → Renumbers r.state
        (respond_join request_id connection accepted reject_code seat resume_token message r).state
unfolding respond_join
respond_join-Renumbers request_id connection accepted reject_code seat resume_token message r =
    (_, refl)

pub refuse_resume-Renumbers :
    (request_id : String) (connection : ConnectionHandle) (request : ResumeSessionRequest)
    (reject_code : RejectCode) (message : String) (r : Room)
    → Renumbers r.state (refuse_resume request_id connection request reject_code message r).state
unfolding refuse_resume
refuse_resume-Renumbers request_id connection request reject_code message r = (_, refl)

sync_resumed-Renumbers :
    (connection : ConnectionHandle) (seat : Seat) (r : Room)
    → Renumbers r.state (sync_resumed connection seat r).state
unfolding sync_resumed
sync_resumed-Renumbers connection seat r = (_, refl)

two_broadcasts-Renumbers :
    (reason : SyncReason) (seat : Seat) (connected : Bool) (r : Room)
    → Renumbers r.state
        (broadcast_connection_changed seat connected (broadcast_sync_state reason r)).state
two_broadcasts-Renumbers reason seat connected r =
    Renumbers-trans r.state (broadcast_sync_state-Renumbers reason r)
      (broadcast_connection_changed-Renumbers seat connected (broadcast_sync_state reason r))

pub admit-Renumbers :
    (request_id : String) (connection : ConnectionHandle) (request : JoinRoomRequest) (seat : Seat)
    (r : Room)
    → Renumbers
        (seat_player request connection seat
          (resume_token_for r.state.room_id request.user_id)
          r.state)
        (admit request_id connection request seat r).state
unfolding admit
admit-Renumbers request_id connection request seat r =
    let token = resume_token_for r.state.room_id request.user_id in
    let seated : Room = record r { state = seat_player request connection seat token r.state } in
    let message : String = "joined room task successfully" in
    Renumbers-trans seated.state
      (respond_join-Renumbers request_id connection _ RejectCode.unspecified seat token message
        seated)
      (two_broadcasts-Renumbers SyncReason.server_resync seat _ _)

pub accept_resume-Renumbers :
    (connection : ConnectionHandle) (seat : Seat) (player : PlayerSlot) (r : Room)
    → Renumbers
        (attach connection seat player r.state)
        (accept_resume connection seat player r).state
unfolding accept_resume
accept_resume-Renumbers connection seat player r =
    Renumbers-trans (attach connection seat player r.state)
      (sync_resumed-Renumbers connection seat
        (record r { state = attach connection seat player r.state }))
      (broadcast_connection_changed-Renumbers seat _ _)

pub leave-Renumbers :
    (seat : Seat) (player : PlayerSlot) (r : Room)
    → Renumbers (detach seat player r.state) (leave seat player r).state
unfolding leave
leave-Renumbers seat player r =
    two_broadcasts-Renumbers SyncReason.server_resync seat _
      (record r { state = detach seat player r.state })
