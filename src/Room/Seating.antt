-- ===== src/Room/Seating.antt =====
-- Joining, getting ready and the auto-play switch (src/room.rs: handle_join, handle_ready,
-- handle_auto_play_toggle).
pub mod Cases
pub mod Renumber
use gb_mahjong_server_rust.Prelude.{
  Bool, true, false, Option, none, some, String, ◌==◌, ◌&&◌, not, nat_eq, string_eq, all,
  if◌then◌else◌,
}
use gb_mahjong_server_rust.Prelude.Text.{◌+++◌}
use gb_mahjong_server_rust.HashMap.{HashMap, get, insert, remove, values, len}
use gb_mahjong_server_rust.Proto.Client.{
  Seat, GamePhase, PlayerStatus, RejectCode, SyncReason, JoinRoomRequest, ReadyRequest,
  ResumeSessionRequest, seat_eq, player_status_eq,
}
use gb_mahjong_server_rust.World.{ConnectionHandle, send_frame}
use gb_mahjong_server_rust.Room.State.{
  PlayerSlot, RoomState, Room, initial_score, next_open_seat, seat_for_connection,
  allocate_event_seq,
}
use gb_mahjong_server_rust.Room.Frames.{
  build_join_room_response, build_action_rejected, build_sync_state_for,
}
use gb_mahjong_server_rust.Room.Send.{
  broadcast_sync_state, broadcast_connection_changed, send_reject_to_connection,
}

-- The answer to a join, which ends both refusals and precedes the broadcasts.
unfoldable pub respond_join :
    String → ConnectionHandle → Bool → RejectCode → Seat → String → String → Room → Room
unfolding allocate_event_seq
respond_join request_id connection accepted reject_code seat resume_token message r =
    let (event_seq, s) = allocate_event_seq r.state in
    record {
      state = s;
      world =
          send_frame connection
            (build_join_room_response event_seq request_id accepted reject_code s.room_id s.match_id
              seat connection.connection_id resume_token (some s.room_config) message)
            r.world;
    }

unfoldable pub resume_token_for : String → String → String
resume_token_for room_id user_id = "resume-" +++ room_id +++ "-" +++ user_id

unfoldable pub new_player : JoinRoomRequest → ConnectionHandle → Seat → String → PlayerSlot
new_player request connection seat resume_token = record {
  user_id = request.user_id;
  display_name = request.display_name;
  seat = seat;
  status = PlayerStatus.joined;
  score = initial_score;
  connected = true;
  auto_play_enabled = false;
  connection_id = some connection.connection_id;
  outbound_tx = some connection.outbound_tx;
  resume_token = resume_token;
}

-- The three insertions of a join.
unfoldable pub seat_player :
    JoinRoomRequest → ConnectionHandle → Seat → String → RoomState → RoomState
unfolding new_player
seat_player request connection seat resume_token s = record s {
  connection_to_user = insert connection.connection_id request.user_id s.connection_to_user;
  user_to_seat = insert request.user_id seat s.user_to_seat;
  players_by_seat = insert seat (new_player request connection seat resume_token) s.players_by_seat;
}

-- A join that finds a seat: the tables, the answer, and the two broadcasts.
unfoldable pub admit : String → ConnectionHandle → JoinRoomRequest → Seat → Room → Room
admit request_id connection request seat r =
    let resume_token = resume_token_for r.state.room_id request.user_id in
    let seated = record r { state = seat_player request connection seat resume_token r.state } in
    broadcast_connection_changed seat true (
      broadcast_sync_state SyncReason.server_resync (
        respond_join request_id connection true RejectCode.unspecified seat resume_token
          "joined room task successfully" seated))

unfoldable pub handle_join : String → ConnectionHandle → JoinRoomRequest → Room → Room
handle_join request_id connection request r = elim (get request.user_id r.state.user_to_seat) [
  | some existing_seat ↦
      respond_join request_id connection false RejectCode.already_joined existing_seat ""
        "user already joined this room" r
  | none ↦ elim (next_open_seat r.state) [
    | none ↦
        respond_join request_id connection false RejectCode.seat_unavailable Seat.unspecified ""
          "room is full" r
    | some seat ↦ admit request_id connection request seat r
  ]
]

unfoldable pub set_status : Seat → PlayerStatus → RoomState → RoomState
set_status seat status s = elim (get seat s.players_by_seat) [
  | none ↦ s
  | some player ↦ record s {
    players_by_seat = insert seat (record player { status = status }) s.players_by_seat;
  }
]

unfoldable pub is_all_ready : RoomState → Bool
is_all_ready s =
    len s.players_by_seat == s.room_config.seat_count
    && all (λ player. player.status == PlayerStatus.ready) (values s.players_by_seat)

-- The phase that `handle_ready` leaves.
unfoldable pub update_phase : RoomState → RoomState
unfolding is_all_ready
update_phase s = record s { phase = if is_all_ready s then GamePhase.dealing else GamePhase.lobby }

-- A ready request of a seated player.
unfoldable pub mark_ready : Seat → Bool → Room → Room
unfolding set_status update_phase
mark_ready seat is_ready r =
    let s =
      set_status seat (if is_ready then PlayerStatus.ready else PlayerStatus.joined) r.state in
    broadcast_sync_state
      (if is_all_ready s then SyncReason.round_start else SyncReason.server_resync)
      (record r { state = update_phase s })

unfoldable pub handle_ready : String → String → ReadyRequest → Room → Room
handle_ready request_id connection_id request r = elim (seat_for_connection r.state connection_id) [
  | none ↦
      send_reject_to_connection connection_id request_id RejectCode.not_in_room
        "connection is not registered in this room" 0 0 r
  | some seat ↦ mark_ready seat request.ready r
]

unfoldable pub set_auto_play : Seat → Bool → PlayerSlot → RoomState → RoomState
set_auto_play seat enabled player s = record s {
  players_by_seat = insert seat (record player { auto_play_enabled = enabled }) s.players_by_seat;
}

pub handle_auto_play_toggle : Seat → Bool → Room → Room
handle_auto_play_toggle seat enabled r = elim (get seat r.state.players_by_seat) [
  | none ↦ r
  | some player ↦
      broadcast_sync_state SyncReason.server_resync
        (record r { state = set_auto_play seat enabled player r.state })
]
