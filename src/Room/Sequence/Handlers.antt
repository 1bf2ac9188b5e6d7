-- ===== src/Room/Sequence/Handlers.antt =====
-- How many numbers each handler takes.
use gb_mahjong_server_rust.Prelude.{
  ◌≡◌, refl, Bool, true, false, inl, inr, if◌then◌else◌, String, string_eq, arith, Option-cases,
}
use gb_mahjong_server_rust.HashMap.{get}
use gb_mahjong_server_rust.Proto.Client.{
  Seat, PlayerStatus, RejectCode, SyncReason, JoinRoomRequest, ReadyRequest, ResumeSessionRequest,
  PlayerActionRequest, seat_eq,
}
use gb_mahjong_server_rust.World.{ConnectionHandle, unix_time_ms, send_frame}
use gb_mahjong_server_rust.Room.State.{PlayerSlot, RoomState, Room}
use gb_mahjong_server_rust.Room.Frames.{
  build_join_room_response, build_action_rejected, build_sync_state_for,
}
use gb_mahjong_server_rust.Room.Send.{broadcast_sync_state, broadcast_connection_changed}
use gb_mahjong_server_rust.Room.Seating.{
  respond_join, resume_token_for, seat_player, admit, handle_join, mark_ready, set_status,
  update_phase, handle_ready, set_auto_play, handle_auto_play_toggle,
}
use gb_mahjong_server_rust.Room.Reconnect.{
  refuse_resume, attach, sync_resumed, accept_resume, handle_resume, detach, drop_connection, leave,
  handle_disconnect,
}
use gb_mahjong_server_rust.Room.Action.{verdict, call_engine, handle_player_action, reject_action}
use gb_mahjong_server_rust.Room.Seating.Cases.{
  join_cases, ready_cases, resume_cases, disconnect_cases, toggle_cases,
}
use gb_mahjong_server_rust.Room.Action.Cases.{action_cases}
use gb_mahjong_server_rust.Room.Sequence.Order.{send-Ordered, IsSequenced}
use gb_mahjong_server_rust.Room.Sequence.Steps.{
  Within, Takes, Takes-comp, one_number, broadcast_sync_state-Takes,
  broadcast_connection_changed-Takes, send_reject_to_connection-Takes,
}

pub respond_join-Takes :
    (request_id : String) (connection : ConnectionHandle) (accepted : Bool)
    (reject_code : RejectCode) (seat : Seat) (resume_token message : String)
    → Takes 1 (respond_join request_id connection accepted reject_code seat resume_token message)
unfolding respond_join send_frame build_join_room_response
respond_join-Takes request_id connection accepted reject_code seat resume_token message r v room =
    one_number r
      (respond_join request_id connection accepted reject_code seat resume_token message r) room
      refl (send-Ordered 0 _ _ connection.outbound_tx _ r.world refl (omega arith) v.0)

pub refuse_resume-Takes :
    (request_id : String) (connection : ConnectionHandle) (request : ResumeSessionRequest)
    (reject_code : RejectCode) (message : String)
    → Takes 1 (refuse_resume request_id connection request reject_code message)
unfolding refuse_resume send_frame build_action_rejected
refuse_resume-Takes request_id connection request reject_code message r v room =
    one_number r (refuse_resume request_id connection request reject_code message r) room refl
      (send-Ordered 0 _ _ connection.outbound_tx _ r.world refl (omega arith) v.0)

pub sync_resumed-Takes :
    (connection : ConnectionHandle) (seat : Seat) → Takes 1 (sync_resumed connection seat)
unfolding sync_resumed send_frame build_sync_state_for unix_time_ms
sync_resumed-Takes connection seat r v room =
    one_number r (sync_resumed connection seat r) room refl
      (send-Ordered 0 _ _ connection.outbound_tx _ (unix_time_ms r.world).1 refl (omega arith) v.0)

-- The two broadcasts that end a join and a disconnect.
pub two_broadcasts-Takes :
    (reason : SyncReason) (seat : Seat) (connected : Bool)
    → Takes 2 (λ r. broadcast_connection_changed seat connected (broadcast_sync_state reason r))
two_broadcasts-Takes reason seat connected =
    Takes-comp 1 1 (broadcast_sync_state reason) (broadcast_connection_changed seat connected)
      (broadcast_sync_state-Takes reason) (broadcast_connection_changed-Takes seat connected)

pub admit-Takes :
    (request_id : String) (connection : ConnectionHandle) (request : JoinRoomRequest) (seat : Seat)
    → Takes 3 (admit request_id connection request seat)
unfolding admit seat_player
admit-Takes request_id connection request seat r v room =
    let token = resume_token_for r.state.room_id request.user_id in
    let seated : Room = record r { state = seat_player request connection seat token r.state } in
    let message : String = "joined room task successfully" in
    let (v', bound) =
      respond_join-Takes request_id connection true RejectCode.unspecified seat token message seated
        v (omega arith) in
    let (v'', bound') =
      two_broadcasts-Takes SyncReason.server_resync seat true
        (respond_join request_id connection true RejectCode.unspecified seat token message seated)
        v' (omega arith) in
    (v'', omega arith)

pub handle_join-Takes :
    (request_id : String) (connection : ConnectionHandle) (request : JoinRoomRequest)
    → Takes 3 (handle_join request_id connection request)
handle_join-Takes request_id connection request r v room =
    join_cases (Within r 3) r request_id connection request
      (λ seat _. refused RejectCode.already_joined seat "user already joined this room")
      (λ _ _. refused RejectCode.seat_unavailable Seat.unspecified "room is full")
      (λ seat _ _. admit-Takes request_id connection request seat r v room)
  where
    refused :
        (reject_code : RejectCode) (seat : Seat) (message : String)
        → Within r 3 (respond_join request_id connection false reject_code seat "" message r)
    refused reject_code seat message =
        let h =
          respond_join-Takes request_id connection false reject_code seat "" message r v
            (omega arith) in
        (h.0, omega arith)

next_event_seq-set_status :
    (seat : Seat) (status : PlayerStatus) (s : RoomState)
    → (set_status seat status s).next_event_seq ≡ s.next_event_seq
unfolding set_status
next_event_seq-set_status seat status s = elim (Option-cases (get seat s.players_by_seat)) [
  | inl e ↦ rw (e, set_status)
  | inr (player, e) ↦ rw (e, set_status)
]

pub mark_ready-Takes : (seat : Seat) (is_ready : Bool) → Takes 1 (mark_ready seat is_ready)
unfolding mark_ready update_phase
mark_ready-Takes seat is_ready r v room =
    let status = if is_ready then PlayerStatus.ready else PlayerStatus.joined in
    let marked : Room = record r { state = update_phase (set_status seat status r.state) } in
    let same = next_event_seq-set_status seat status r.state in
    let v' : IsSequenced marked = rw same v in
    let (v'', bound) = broadcast_sync_state-Takes _ marked v' (omega arith) in (v'', omega arith)

pub handle_ready-Takes :
    (request_id connection_id : String) (request : ReadyRequest)
    → Takes 1 (handle_ready request_id connection_id request)
handle_ready-Takes request_id connection_id request r v room =
    ready_cases (Within r 1) r request_id connection_id request
      (λ _. send_reject_to_connection-Takes connection_id request_id _ _ 0 0 r v room)
      (λ seat _. mark_ready-Takes seat request.ready r v room)

pub accept_resume-Takes :
    (connection : ConnectionHandle) (seat : Seat) (player : PlayerSlot)
    → Takes 2 (accept_resume connection seat player)
unfolding accept_resume attach
accept_resume-Takes connection seat player r v room =
    let attached : Room = record r { state = attach connection seat player r.state } in
    let (v', bound) = sync_resumed-Takes connection seat attached v (omega arith) in
    let (v'', bound') =
      broadcast_connection_changed-Takes seat true (sync_resumed connection seat attached) v'
        (omega arith) in
    (v'', omega arith)

pub handle_resume-Takes :
    (request_id : String) (connection : ConnectionHandle) (request : ResumeSessionRequest)
    → Takes 2 (handle_resume request_id connection request)
handle_resume-Takes request_id connection request r v room =
    resume_cases (Within r 2) r request_id connection request (λ _. refused _ _)
      (λ seat _ _. refused _ _) (λ seat player _ _ _. refused _ _)
      (λ seat player _ _ _. accept_resume-Takes connection seat player r v room)
  where
    refused :
        (reject_code : RejectCode) (message : String)
        → Within r 2 (refuse_resume request_id connection request reject_code message r)
    refused reject_code message =
        let h =
          refuse_resume-Takes request_id connection request reject_code message r v (omega arith) in
        (h.0, omega arith)

pub leave-Takes : (seat : Seat) (player : PlayerSlot) → Takes 2 (leave seat player)
unfolding leave detach
leave-Takes seat player r v room = two_broadcasts-Takes SyncReason.server_resync seat false _ v room

pub handle_disconnect-Takes : (connection_id : String) → Takes 2 (handle_disconnect connection_id)
unfolding drop_connection
handle_disconnect-Takes connection_id r v room =
    disconnect_cases (Within r 2) r connection_id (λ _. (v, omega arith))
      (λ user_id _. (v, omega arith))
      (λ user_id seat player _ _ _.
        leave-Takes seat player (record r { state = drop_connection connection_id r.state }) v room)

pub handle_auto_play_toggle-Takes :
    (seat : Seat) (enabled : Bool) → Takes 1 (handle_auto_play_toggle seat enabled)
unfolding set_auto_play
handle_auto_play_toggle-Takes seat enabled r v room =
    toggle_cases (Within r 1) r seat enabled (λ _. (v, omega arith))
      (λ player _.
        broadcast_sync_state-Takes SyncReason.server_resync
          (record r { state = set_auto_play seat enabled player r.state }) v room)

pub handle_player_action-Takes :
    (request_id connection_id : String) (request : PlayerActionRequest)
    → Takes 1 (handle_player_action request_id connection_id request)
unfolding call_engine reject_action
handle_player_action-Takes request_id connection_id request r v room =
    action_cases (Within r 1) r request_id connection_id request
      (λ code message.
        send_reject_to_connection-Takes connection_id request_id code message _ _ r v room)
      (λ seat validate_request _.
        let (answer, r') = call_engine validate_request r in
        send_reject_to_connection-Takes connection_id request_id (verdict answer).0
          (verdict answer).1 request.expected_event_seq request.action_window_id r' v room)
      (λ seat toggle _ _. handle_auto_play_toggle-Takes seat toggle.enabled r v room)
