-- ===== src/Room/Lobby/Routes.antt =====
-- What an update of the table of the connections does to the seats behind them (src/room.rs:
-- seat_for_connection).
use mathlib.Core.Path.{fun_ext}
use gb_mahjong_server_rust.Prelude.{
  ◌≡◌, refl, ◌∙◌, inl, inr, Option, none, some, String, ◌==◌, string_eq, eq_iff, arith,
  Option-cases, Bool-cases,
}
use gb_mahjong_server_rust.HashMap.{HashMap, get, insert, remove}
use gb_mahjong_server_rust.HashMap.Laws.{get-insert, get-remove}
use gb_mahjong_server_rust.Proto.Client.{Seat}
use gb_mahjong_server_rust.Room.State.{RoomState, seat_for_connection}
use gb_mahjong_server_rust.Room.Reconnect.{forget_connection}
use gb_mahjong_server_rust.Room.Lobby.{route, forget}

abbrev seat_of_user : HashMap String Seat → Option String → Option Seat
seat_of_user users none = none
seat_of_user users (some user_id) = get user_id users

-- The seats behind the connections of a table.
abbrev pub seats : HashMap String Seat → HashMap String String → String → Option Seat
seats users routes j = seat_of_user users (get j routes)

pub seat_for_connection-seats :
    (s : RoomState) → seat_for_connection s ≡ seats s.user_to_seat s.connection_to_user
unfolding seat_for_connection
seat_for_connection-seats s = fun_ext (λ j. elim (Option-cases (get j s.connection_to_user)) [
  | inl e ↦ rw (e, seat_for_connection) refl
  | inr (u, e) ↦ rw (e, seat_for_connection) refl
])

module _ (users : HashMap String Seat) (routes : HashMap String String) where
  pub seats-insert :
      (connection_id user_id : String)
      → seats users (insert connection_id user_id routes)
        ≡ route connection_id (get user_id users) (seats users routes)
  seats-insert connection_id user_id = fun_ext (λ j. elim (Bool-cases (connection_id == j)) [
    | inl here ↦ rw (get-insert, here) refl
    | inr there ↦ rw (get-insert, there) refl
  ])

  pub seats-remove :
      (connection_id : String)
      → seats users (remove connection_id routes) ≡ route connection_id none (seats users routes)
  seats-remove connection_id = fun_ext (λ j. elim (Bool-cases (connection_id == j)) [
    | inl here ↦ rw (get-remove, here) refl
    | inr there ↦ rw (get-remove, there) refl
  ])

  pub seats-forget :
      (connection_id : Option String)
      → seats users (forget_connection connection_id routes)
        ≡ forget connection_id (seats users routes)
  seats-forget none = refl
  seats-forget (some connection_id) = seats-remove connection_id

  -- A new user's seat is behind no connection yet.
  pub seats-new :
      (user_id : String) (seat : Seat)
      → get user_id users ≡ none
      → ((j other : String)
          → get j routes ≡ some other
          → (seat' : Seat) × (get other users ≡ some seat'))
      → seats (insert user_id seat users) routes ≡ seats users routes
  seats-new user_id seat fresh routed = fun_ext (λ j. elim (Option-cases (get j routes)) [
    | inl unknown ↦ rw (unknown) refl
    | inr (other, known) ↦
        let (seat', found) = routed j other known in
        rw (known) (get-insert user_id other seat users ∙ ground (arith, eq_iff user_id other))
  ])
