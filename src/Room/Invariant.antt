-- ===== src/Room/Invariant.antt =====
-- What always holds of the tables of a room (src/room.rs: RoomState).
pub mod Count
pub mod Slots
pub mod Update
pub mod Join
pub mod Run
use gb_mahjong_server_rust.Prelude.{◌≡◌, ◌≢◌, Bool, some, String, string_eq, is_some, if◌then◌else◌}
use gb_mahjong_server_rust.HashMap.{HashMap, get}
use gb_mahjong_server_rust.HashMap.Laws.{HasDistinctKeys}
use gb_mahjong_server_rust.Proto.Client.{Seat, GamePhase, seat_eq}
use gb_mahjong_server_rust.Room.State.{PlayerSlot, RoomState}
use gb_mahjong_server_rust.Room.Seating.{resume_token_for, is_all_ready}

-- A slot is filed under its own seat and user, holds the token of a resume, and has a connection and
-- a channel exactly while it is marked as connected.
pub record IsFiled (room_id : String) (users : HashMap String Seat) (seat : Seat) (p : PlayerSlot)
    : Type 0 where
  pub owner : get p.user_id users ≡ some seat
  pub own_seat : p.seat ≡ seat
  pub real : seat ≢ Seat.unspecified
  pub token : p.resume_token ≡ resume_token_for room_id p.user_id
  pub identified : is_some p.connection_id ≡ p.connected
  pub reachable : is_some p.outbound_tx ≡ p.connected

-- Users and seats point at one another, connections point at users, and the phase follows from the
-- players.
pub record IsWellFormed (s : RoomState) : Type 0 where
  pub seated :
      (user_id : String) (seat : Seat)
      → get user_id s.user_to_seat ≡ some seat
      → (p : PlayerSlot) × (get seat s.players_by_seat ≡ some p) × (p.user_id ≡ user_id)
  pub filed :
      (seat : Seat) (p : PlayerSlot)
      → get seat s.players_by_seat ≡ some p
      → IsFiled s.room_id s.user_to_seat seat p
  pub routed :
      (connection_id user_id : String)
      → get connection_id s.connection_to_user ≡ some user_id
      → (seat : Seat) × (get user_id s.user_to_seat ≡ some seat)
  pub distinct : HasDistinctKeys s.players_by_seat
  pub phased : s.phase ≡ (if is_all_ready s then GamePhase.dealing else GamePhase.lobby)
  pub table_size : s.room_config.seat_count ≡ 4
