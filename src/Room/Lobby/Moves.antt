-- ===== src/Room/Lobby/Moves.antt =====
-- How a step of the lobby moves the connections (src/room.rs: handle_command).
use gb_mahjong_server_rust.Prelude.{
  ◌≡◌, refl, ◌⊎◌, inl, inr, Option, none, some, String, ◌==◌, ◌&&◌, string_eq, eq_iff, arith,
  if◌then◌else◌, Option-cases, Bool-cases,
}
use gb_mahjong_server_rust.Proto.Client.{Seat, Action, auto_play_toggle, seat_eq}
use gb_mahjong_server_rust.Room.Seating.{resume_token_for}
use gb_mahjong_server_rust.Room.Action.{
  RoomCommand, join, ready, resume_session, player_action, disconnect,
}
use gb_mahjong_server_rust.Room.Lobby.{
  Member, Lobby, seat_held_by, free_seat, change_at, route, forget, connection_at, sit, change_of,
  return, go_away, switch, lobby_step,
}

abbrev pub connection_of : Lobby → Seat → Option String
connection_of l seat = connection_at (l.member_at seat)

-- A change of the lobby at one seat.
module _ (l : Lobby) where
  free_seat-none : (seat : Seat) → free_seat l ≡ some seat → l.member_at seat ≡ none
  unfolding free_seat
  free_seat-none seat e = ground arith

  seat_held_by-some :
      (user_id : String) (seat : Seat)
      → seat_held_by user_id l ≡ some seat
      → (m : Member) × (l.member_at seat ≡ some m)
  unfolding seat_held_by
  seat_held_by-some user_id seat e = elim (Option-cases (l.member_at seat)) [
    | inr found ↦ found
    | inl gone ↦ ground arith
  ]

  change_at-connection :
      (seat : Seat) (change : Member → Member)
      → ((m : Member) → (change m).connection ≡ m.connection)
      → (j : Seat) → connection_at (change_at seat change l.member_at j) ≡ connection_of l j
  change_at-connection seat change same j = elim (Option-cases (l.member_at j)) [
    | inl e ↦ rw e (ground arith)
    | inr (m, e) ↦ ground (arith, same m)
  ]

-- What a step does to the connections of the seats and the seats of the connections: nothing, or a
-- connection takes a seat, or leaves it.
abbrev pub Stays : Lobby → Lobby → Type 0
Stays l l' =
    ((j : Seat) → connection_of l' j ≡ connection_of l j)
    × ((d : String) → l'.seat_of d ≡ l.seat_of d)

abbrev pub Leaves : Lobby → Lobby → Type 0
Leaves l l' =
    (c : String) × (seat : Seat) × (l.seat_of c ≡ some seat)
    × ((j : Seat) → connection_of l' j ≡ (if seat == j then none else connection_of l j))
    × ((d : String) → l'.seat_of d ≡ route c none l.seat_of d)

abbrev pub Enters : String → Lobby → Lobby → Type 0
Enters c l l' =
    (seat : Seat) × ((j : Seat)
      → connection_of l' j ≡ (if seat == j then some c else connection_of l j))
    × ((d : String)
        → l'.seat_of d ≡ route c (some seat) (forget (connection_of l seat) l.seat_of) d)

-- The connection that a command brings.
abbrev pub entrant : RoomCommand → Option String
entrant (join request_id connection request) = some connection.connection_id
entrant (resume_session request_id connection request) = some connection.connection_id
entrant _ = none

abbrev pub Moves : RoomCommand → Lobby → Lobby → Type 0
Moves command l l' =
    Stays l l' ⊎ Leaves l l' ⊎ ((c : String) × (entrant command ≡ some c) × Enters c l l')

module _ (l : Lobby) where
  same : Stays l l
  same = (λ j. refl, λ d. refl)

  sit-Moves :
      (user_id connection_id : String)
      → Stays l (sit user_id connection_id l) ⊎ Enters connection_id l (sit user_id connection_id l)
  unfolding sit
  sit-Moves user_id connection_id = elim (Option-cases (seat_held_by user_id l)) [
    | inr (seat, e) ↦ inl (rw (e, sit) same)
    | inl new ↦ elim (Option-cases (free_seat l)) [
      | inl full ↦ inl (rw (new, sit, full) same)
      | inr (seat, free) ↦
          let none_there = free_seat-none l seat free in
          inr (rw (new, sit, free) (seat, λ j. ground arith, λ d. rw none_there refl))
    ]
  ]

  return-Moves :
      (user_id token connection_id : String)
      → Stays l (return user_id token connection_id l)
        ⊎ Enters connection_id l (return user_id token connection_id l)
  unfolding return
  return-Moves user_id token connection_id = elim (Option-cases (seat_held_by user_id l)) [
    | inl new ↦ inl (rw (new, return) same)
    | inr (seat, e) ↦ elim (Bool-cases (resume_token_for l.room_id user_id == token)) [
      | inr wrong ↦ inl (rw (e, return, wrong) same)
      | inl right ↦
          let (m, there) = seat_held_by-some l user_id seat e in
          inr (rw (e, return, right) (seat, λ j. ground (arith, eq_iff seat j), λ d. refl))
    ]
  ]

  go_away-Moves :
      (connection_id : String)
      → Stays l (go_away connection_id l) ⊎ Leaves l (go_away connection_id l)
  unfolding go_away
  go_away-Moves connection_id = elim (Option-cases (l.seat_of connection_id)) [
    | inl unknown ↦ inl (rw (unknown, go_away) same)
    | inr (seat, e) ↦ inr (
        rw (e, go_away)
          (
            connection_id,
            seat,
            e,
            λ j. elim (Option-cases (l.member_at j)) [
              | inl gone ↦ rw gone (ground arith)
              | inr (m, there) ↦ ground (arith)
            ],
            λ d. refl,
          ))
  ]

  change_of-Stays :
      (connection_id : String) (change : Member → Member)
      → ((m : Member) → (change m).connection ≡ m.connection)
      → Stays l (change_of connection_id change l)
  unfolding change_of
  change_of-Stays connection_id change kept = elim (Option-cases (l.seat_of connection_id)) [
    | inl unknown ↦ rw (unknown, change_of) same
    | inr (seat, e) ↦ rw (e, change_of) (change_at-connection l seat change kept, λ d. refl)
  ]

  switch-Stays :
      (connection_id : String) (action : Option Action) → Stays l (switch connection_id action l)
  switch-Stays connection_id none = same
  switch-Stays connection_id (some (auto_play_toggle toggle)) =
      change_of-Stays connection_id _ (λ m. refl)
  switch-Stays connection_id (some _) = same

pub lobby_step-Moves : (command : RoomCommand) (l : Lobby) → Moves command l (lobby_step command l)
lobby_step-Moves (join request_id connection request) l =
    elim (sit-Moves l request.user_id connection.connection_id) [
      | inl stays ↦ inl stays
      | inr enters ↦ inr (inr (connection.connection_id, refl, enters))
    ]
lobby_step-Moves (ready request_id connection_id request) l =
    inl (change_of-Stays l connection_id _ (λ m. refl))
lobby_step-Moves (resume_session request_id connection request) l =
    elim (return-Moves l request.user_id request.resume_token connection.connection_id) [
      | inl stays ↦ inl stays
      | inr enters ↦ inr (inr (connection.connection_id, refl, enters))
    ]
lobby_step-Moves (player_action request_id connection_id request) l =
    elim (Bool-cases (request.match_id == l.match_id && request.round_id == l.round_id)) [
      | inl current ↦ rw current (inl (switch-Stays l connection_id request.action))
      | inr other ↦ rw other (inl (same l))
    ]
lobby_step-Moves (disconnect connection_id) l = elim (go_away-Moves l connection_id) [
  | inl stays ↦ inl stays
  | inr leaves ↦ inr (inl leaves)
]
