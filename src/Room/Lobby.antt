-- ===== src/Room/Lobby.antt =====
-- What a room promises its players, without its tables: who sits where, who has a connection, and
-- which connection stands for which seat. The commands of a room task (src/room.rs: RoomCommand) as
-- steps of this lobby.
pub mod Routes
pub mod View
pub mod Tables
pub mod Steps
pub mod Actions
pub mod Refines
pub mod Moves
pub mod Linked
pub mod Intact
use gb_mahjong_server_rust.Prelude.{
  Bool, true, false, Option, none, some, List, [], ◌∷◌, String, ◌==◌, string_eq, ◌&&◌, not, is_some,
  find, if◌then◌else◌,
}
use mathlib.Core.Option
use gb_mahjong_server_rust.Proto.Client.{Seat, PlayerStatus, Action, auto_play_toggle, seat_eq}
use gb_mahjong_server_rust.Room.State.{seat_order}
use gb_mahjong_server_rust.Room.Seating.{resume_token_for}
use gb_mahjong_server_rust.Room.Action.{
  RoomCommand, join, ready, resume_session, player_action, disconnect,
}

-- A player at the table; `connection` is none while the player is away.
pub record Member : Type 0 where
  pub user_id : String
  pub status : PlayerStatus
  pub auto_play : Bool
  pub connection : Option String

pub record Lobby : Type 0 where
  pub room_id : String
  pub match_id : String
  pub round_id : String
  pub member_at : Seat → Option Member
  pub seat_of : (connection_id : String) → Option Seat

abbrev pub holds : String → Option Member → Bool
holds user_id none = false
holds user_id (some m) = m.user_id == user_id

-- The seat of a user, and the first seat that is free.
unfoldable pub seat_held_by : String → Lobby → Option Seat
seat_held_by user_id l = find (λ seat. holds user_id (l.member_at seat)) seat_order

unfoldable pub free_seat : Lobby → Option Seat
free_seat l = find (λ seat. not (is_some (l.member_at seat))) seat_order

abbrev pub seat_at : Seat → Member → (Seat → Option Member) → Seat → Option Member
seat_at seat m f j = if seat == j then some m else f j

abbrev pub change_at : Seat → (Member → Member) → (Seat → Option Member) → Seat → Option Member
change_at seat change f j = if seat == j then Option.map change (f j) else f j

abbrev pub route : String → Option Seat → (String → Option Seat) → String → Option Seat
route connection_id seat f j = if connection_id == j then seat else f j

abbrev pub forget : Option String → (String → Option Seat) → String → Option Seat
forget none f = f
forget (some connection_id) f = route connection_id none f

abbrev pub connection_at : Option Member → Option String
connection_at none = none
connection_at (some m) = m.connection

unfoldable pub sit : String → String → Lobby → Lobby
sit user_id connection_id l = elim (seat_held_by user_id l) [
  | some _ ↦ l
  | none ↦ elim (free_seat l) [
    | none ↦ l
    | some seat ↦ record l {
      member_at =
          seat_at seat
            (record {
              user_id = user_id;
              status = PlayerStatus.joined;
              auto_play = false;
              connection = some connection_id;
            })
            l.member_at;
      seat_of = route connection_id (some seat) l.seat_of;
    }
  ]
]

unfoldable pub change_of : String → (Member → Member) → Lobby → Lobby
change_of connection_id change l = elim (l.seat_of connection_id) [
  | none ↦ l
  | some seat ↦ record l { member_at = change_at seat change l.member_at }
]

unfoldable pub return : String → String → String → Lobby → Lobby
return user_id token connection_id l = elim (seat_held_by user_id l) [
  | none ↦ l
  | some seat ↦
      if resume_token_for l.room_id user_id == token
      then record l {
        member_at =
            change_at seat (λ (m : Member). record m { connection = some connection_id })
              l.member_at;
        seat_of =
            route connection_id (some seat) (forget (connection_at (l.member_at seat)) l.seat_of);
      }
      else l
]

unfoldable pub go_away : String → Lobby → Lobby
go_away connection_id l = elim (l.seat_of connection_id) [
  | none ↦ l
  | some seat ↦ record l {
    member_at = change_at seat (λ (m : Member). record m { connection = none }) l.member_at;
    seat_of = route connection_id none l.seat_of;
  }
]

-- Only the switch of the auto-play changes the lobby.
abbrev pub switch : String → Option Action → Lobby → Lobby
switch connection_id (some (auto_play_toggle toggle)) l =
    change_of connection_id (λ (m : Member). record m { auto_play = toggle.enabled }) l
switch connection_id _ l = l

abbrev pub lobby_step : RoomCommand → Lobby → Lobby
lobby_step (join request_id connection request) l = sit request.user_id connection.connection_id l
lobby_step (ready request_id connection_id request) l =
    change_of connection_id
      (λ (m : Member). record m {
        status = if request.ready then PlayerStatus.ready else PlayerStatus.joined;
      })
      l
lobby_step (resume_session request_id connection request) l =
    return request.user_id request.resume_token connection.connection_id l
lobby_step (player_action request_id connection_id request) l =
    if request.match_id == l.match_id && request.round_id == l.round_id
    then switch connection_id request.action l
    else l
lobby_step (disconnect connection_id) l = go_away connection_id l

unfoldable pub lobby_steps : List RoomCommand → Lobby → Lobby
lobby_steps [] l = l
lobby_steps (command ∷ commands) l = lobby_steps commands (lobby_step command l)

-- Nobody is there.
abbrev pub empty_lobby : String → String → String → Lobby
empty_lobby room_id match_id round_id = record {
  room_id = room_id;
  match_id = match_id;
  round_id = round_id;
  member_at = λ seat. none;
  seat_of = λ connection_id. none;
}
