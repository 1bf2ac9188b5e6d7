-- ===== src/Room/Reconnect.antt =====
-- Coming back and leaving (src/room.rs: handle_resume, handle_disconnect).
use gb_mahjong_server_rust.Prelude.{
  true, false, Option, none, some, String, ◌==◌, not, nat_eq, string_eq, if◌then◌else◌,
}
use gb_mahjong_server_rust.HashMap.{HashMap, get, insert, remove}
use gb_mahjong_server_rust.Proto.Client.{
  Seat, RejectCode, SyncReason, ResumeSessionRequest, seat_eq, player_status_eq,
}
use gb_mahjong_server_rust.World.{ConnectionHandle, send_frame}
use gb_mahjong_server_rust.Room.State.{PlayerSlot, RoomState, Room, allocate_event_seq}
use gb_mahjong_server_rust.Room.Frames.{build_action_rejected, build_sync_state_for}
use gb_mahjong_server_rust.Room.Send.{broadcast_sync_state, broadcast_connection_changed}

-- A refusal that goes to the connection itself, whether or not the room knows it.
unfoldable pub refuse_resume :
    String → ConnectionHandle → ResumeSessionRequest → RejectCode → String → Room → Room
unfolding allocate_event_seq
refuse_resume request_id connection request reject_code message r =
    let (event_seq, s) = allocate_event_seq r.state in
    record {
      state = s;
      world =
          send_frame connection
            (build_action_rejected event_seq request_id reject_code message
              request.last_received_event_seq 0)
            r.world;
    }

-- `if let Some(old) = player.connection_id.replace(..) { connection_to_user.remove(&old) }`
abbrev pub forget_connection : Option String → HashMap String String → HashMap String String
forget_connection none m = m
forget_connection (some old_connection_id) m = remove old_connection_id m

-- The slot and the connection table after a resume.
unfoldable pub attach : ConnectionHandle → Seat → PlayerSlot → RoomState → RoomState
attach connection seat player s = record s {
  connection_to_user =
      insert connection.connection_id player.user_id
        (forget_connection player.connection_id s.connection_to_user);
  players_by_seat =
      insert seat
        (record player {
          connection_id = some connection.connection_id;
          connected = true;
          outbound_tx = some connection.outbound_tx;
        })
        s.players_by_seat;
}

unfoldable pub sync_resumed : ConnectionHandle → Seat → Room → Room
unfolding allocate_event_seq
sync_resumed connection seat r =
    let (event_seq, s) = allocate_event_seq r.state in
    let (frame, w) = build_sync_state_for s seat event_seq SyncReason.reconnect r.world in
    record { state = s; world = send_frame connection frame w }

-- A resume with the right token.
unfoldable pub accept_resume : ConnectionHandle → Seat → PlayerSlot → Room → Room
accept_resume connection seat player r =
    broadcast_connection_changed seat true
      (sync_resumed connection seat (record r { state = attach connection seat player r.state }))

-- The code looks the slot up a second time before it updates it; nothing happens in between, so that
-- refusal ("room state lost player seat mapping during resume update") cannot be met.
unfoldable pub handle_resume : String → ConnectionHandle → ResumeSessionRequest → Room → Room
handle_resume request_id connection request r = elim (get request.user_id r.state.user_to_seat) [
  | none ↦
      refuse_resume request_id connection request RejectCode.not_in_room
        "user is not known in this room" r
  | some seat ↦ elim (get seat r.state.players_by_seat) [
    | none ↦
        refuse_resume request_id connection request RejectCode.internal_error
          "room state lost player seat mapping" r
    | some player ↦
        if not (player.resume_token == request.resume_token)
        then refuse_resume request_id connection request RejectCode.auth_failed
            "resume token does not match room state" r
        else accept_resume connection seat player r
  ]
]

unfoldable pub detach : Seat → PlayerSlot → RoomState → RoomState
detach seat player s = record s {
  players_by_seat =
      insert seat (record player { connected = false; connection_id = none; outbound_tx = none })
        s.players_by_seat;
}

-- `self.connection_to_user.remove(&connection_id)`
unfoldable pub drop_connection : String → RoomState → RoomState
drop_connection connection_id s = record s {
  connection_to_user = remove connection_id s.connection_to_user;
}

-- The loss of a seated player's connection.
unfoldable pub leave : Seat → PlayerSlot → Room → Room
leave seat player r = broadcast_connection_changed seat false (
    broadcast_sync_state SyncReason.server_resync (record r { state = detach seat player r.state }))

unfoldable pub handle_disconnect : String → Room → Room
handle_disconnect connection_id r = elim (get connection_id r.state.connection_to_user) [
  | none ↦ r
  | some user_id ↦
      let dropped = record r { state = drop_connection connection_id r.state } in
      elim (get user_id r.state.user_to_seat) [
        | none ↦ dropped
        | some seat ↦ elim (get seat r.state.players_by_seat) [
          | none ↦ dropped
          | some player ↦ leave seat player dropped
        ]
      ]
]
