-- ===== src/Room/Lobby/Intact.antt =====
-- The tables of a room's task, with the connections of its players (src/room.rs: RoomState,
-- run_room_task).
use mathlib.Core.Option
use mathlib.Core.Option.{none-ne-some}
use gb_mahjong_server_rust.Prelude.{
  ◌≡◌, ◌≢◌, refl, sym, ap, ◌∙◌, ◌↔◌, inl, inr, subst, none, some, List, [], ◌∷◌, String, string_eq,
  Option-cases, All,
}
use gb_mahjong_server_rust.Prelude.Text.{◌+++◌}
use gb_mahjong_server_rust.HashMap.{get}
use gb_mahjong_server_rust.Proto.Client.{Seat, seat_eq}
use gb_mahjong_server_rust.Engine.{RuleEngineHandle}
use gb_mahjong_server_rust.World.{World}
use gb_mahjong_server_rust.Room.State.{PlayerSlot, RoomState, Room, new, seat_for_connection}
use gb_mahjong_server_rust.Room.Action.{RoomCommand, run_room_task}
use gb_mahjong_server_rust.Room.Invariant.{IsWellFormed}
use gb_mahjong_server_rust.Room.Invariant.Run.{run_room_task-IsWellFormed}
use gb_mahjong_server_rust.Room.Lobby.{Lobby, connection_at, empty_lobby}
use gb_mahjong_server_rust.Room.Lobby.View.{member, view}
use gb_mahjong_server_rust.Room.Lobby.Moves.{connection_of, entrant}
use gb_mahjong_server_rust.Room.Lobby.Linked.{
  IsLinked, IsExact, EnterOnce, lobby_steps-IsLinked, lobby_steps-IsExact,
}
use gb_mahjong_server_rust.Room.Lobby.Refines.{run_room_task-refines}

-- A player sits there, on this connection.
abbrev pub SitsOn : RoomState → Seat → String → Type 0
SitsOn s seat connection_id =
    (p : PlayerSlot) × (get seat s.players_by_seat ≡ some p)
    × (p.connection_id ≡ some connection_id)

-- The tables are well-formed, and a connection that stands for a seat is that of the player there.
pub record IsIntact (s : RoomState) : Type 0 where
  pub well_formed : IsWellFormed s
  pub linked :
      (connection_id : String) (seat : Seat)
      → seat_for_connection s connection_id ≡ some seat
      → SitsOn s seat connection_id

module _ (s : RoomState) (seat : Seat) (connection_id : String) where
  sits_on : connection_of (view s) seat ≡ some connection_id → SitsOn s seat connection_id
  sits_on e = elim (Option-cases (get seat s.players_by_seat)) [
    | inl gone ↦ let nobody : none ≡ some connection_id = sym (rw gone refl) ∙ e in cc
    | inr (p, there) ↦ (p, there, sym (ap (λ o. connection_at (Option.map member o)) there) ∙ e)
  ]

  connection_there : SitsOn s seat connection_id → connection_of (view s) seat ≡ some connection_id
  connection_there (p, there, e) = ap (λ o. connection_at (Option.map member o)) there ∙ e

module _ (room_id : String) (engine : RuleEngineHandle) (w : World)
    (commands : List RoomCommand) where
  abbrev start : Lobby
  start = empty_lobby room_id ("match-" +++ room_id) "hand-1"

  -- After any commands, the tables of a new room's task are well-formed: each user who has a seat is
  -- the player in that seat's slot, a slot is filed under its own seat and user and has a connection,
  -- a channel and the mark of a connected player all or none, and the phase is that of the players'
  -- readiness. A connection in the table stands for a user who has a seat, and it is the very
  -- connection of the player in that seat.
  pub run_room_task-IsIntact :
      let r : Room = record { state = new room_id engine; world = w } in
      IsIntact (run_room_task commands r).state
  run_room_task-IsIntact =
      let s = (run_room_task commands (record { state = new room_id engine; world = w })).state in
      let linked =
        subst IsLinked (sym (run_room_task-refines room_id engine w commands))
          (lobby_steps-IsLinked commands start (λ c seat e. cc)) in
      record {
        well_formed = run_room_task-IsWellFormed room_id engine w commands;
        linked = λ c seat e. sits_on s seat c (linked c seat e);
      }

  -- If no connection is named by two of the joins and resumes among the commands, then, after these
  -- commands, a connection of a new room's task stands for a seat exactly when it is the connection of
  -- the player in that seat.
  pub run_room_task-exact :
      (connection_id : String) (seat : Seat)
      → EnterOnce commands
      → let s = (run_room_task commands (record { state = new room_id engine; world = w })).state in
        (seat_for_connection s connection_id ≡ some seat) ↔ SitsOn s seat connection_id
  run_room_task-exact connection_id seat once =
      let s = (run_room_task commands (record { state = new room_id engine; world = w })).state in
      let exact =
        subst IsExact (sym (run_room_task-refines room_id engine w commands))
          (lobby_steps-IsExact commands start once (nobody commands) (λ c seat e. cc)) in
      (
        run_room_task-IsIntact.linked connection_id seat,
        λ there. exact connection_id seat (connection_there s seat connection_id there),
      )
    where
      nobody :
          (commands : List RoomCommand)
          → All
              (λ command.
                (c : String) (j : Seat) → entrant command ≡ some c → connection_of start j ≢ some c)
              commands
      nobody [] = tt
      nobody (command ∷ commands) = (λ c j comes e. none-ne-some c e, nobody commands)
