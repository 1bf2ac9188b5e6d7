-- ===== src/Room/Lobby/Linked.antt =====
-- Connections and seats of the lobby point at one another (src/room.rs: RoomState, handle_command).
use gb_mahjong_server_rust.Prelude.{
  ◌≡◌, ◌≢◌, refl, sym, ◌∙◌, ◌⊎◌, inl, inr, none, some, List, [], ◌∷◌, String, ◌==◌, string_eq,
  eq_iff, arith, Option-cases, Bool-cases, All,
}
use gb_mahjong_server_rust.Proto.Client.{Seat, seat_eq}
use gb_mahjong_server_rust.Room.Action.{RoomCommand}
use gb_mahjong_server_rust.Room.Lobby.{Lobby, lobby_step, lobby_steps}
use gb_mahjong_server_rust.Room.Lobby.Moves.{
  connection_of, Stays, Leaves, Enters, entrant, Moves, lobby_step-Moves,
}

-- A connection that stands for a seat is the one that the player there has.
abbrev pub IsLinked : Lobby → Type 0
IsLinked l =
    (connection_id : String) (seat : Seat)
    → l.seat_of connection_id ≡ some seat
    → connection_of l seat ≡ some connection_id

Stays-IsLinked : (l l' : Lobby) → Stays l l' → IsLinked l → IsLinked l'
Stays-IsLinked l l' (at, of) h d j found = at j ∙ h d j (sym (of d) ∙ found)

Leaves-IsLinked : (l l' : Lobby) → Leaves l l' → IsLinked l → IsLinked l'
Leaves-IsLinked l l' (c, seat, left, at, of) h d j found =
    ground (arith, at j, of d, h c seat left, h d j, eq_iff seat j, eq_iff c d)

Enters-IsLinked : (c : String) (l l' : Lobby) → Enters c l l' → IsLinked l → IsLinked l'
Enters-IsLinked c l l' (seat, at, of) h d j found = elim (Option-cases (connection_of l seat)) [
  | inl gone ↦ ground (arith, at j, rw gone at (of d), h d j, eq_iff seat j, eq_iff c d)
  | inr (old, there) ↦
      ground (arith, at j, rw there at (of d), h d j, eq_iff seat j, eq_iff c d, eq_iff old d)
]

pub lobby_steps-IsLinked :
    (commands : List RoomCommand) (l : Lobby) → IsLinked l → IsLinked (lobby_steps commands l)
unfolding lobby_steps
lobby_steps-IsLinked [] l h = h
lobby_steps-IsLinked (command ∷ commands) l h =
    let l' : Lobby = lobby_step command l in
    lobby_steps-IsLinked commands l' (elim (lobby_step-Moves command l) [
      | inl stays ↦ Stays-IsLinked l l' stays h
      | inr (inl leaves) ↦ Leaves-IsLinked l l' leaves h
      | inr (inr (c, _, enters)) ↦ Enters-IsLinked c l l' enters h
    ])

-- The connection of a player stands for the player's seat.
abbrev pub IsExact : Lobby → Type 0
IsExact l =
    (connection_id : String) (seat : Seat)
    → connection_of l seat ≡ some connection_id
    → l.seat_of connection_id ≡ some seat

-- No command brings a connection that an earlier one brought.
abbrev pub EnterOnce : List RoomCommand → Type 0
EnterOnce [] = Unit
EnterOnce (command ∷ commands) =
    All (λ later. (c : String) → entrant command ≡ some c → entrant later ≢ some c) commands
    × EnterOnce commands

-- What the commands bring is not there yet.
abbrev AreNew : Lobby → List RoomCommand → Type 0
AreNew l commands =
    All (λ command. (c : String) (j : Seat) → entrant command ≡ some c → connection_of l j ≢ some c)
      commands

Stays-IsExact : (l l' : Lobby) → Stays l l' → IsExact l → IsExact l'
Stays-IsExact l l' (at, of) h d j found = of d ∙ h d j (sym (at j) ∙ found)

Leaves-IsExact : (l l' : Lobby) → Leaves l l' → IsExact l → IsExact l'
Leaves-IsExact l l' (c, seat, left, at, of) h d j found =
    ground (arith, at j, of d, left, h d j, eq_iff seat j, eq_iff c d)

Enters-IsExact :
    (c : String) (l l' : Lobby)
    → ((j : Seat) → connection_of l j ≢ some c)
    → Enters c l l'
    → IsExact l
    → IsExact l'
Enters-IsExact c l l' fresh (seat, at, of) h d j found =
    elim (Option-cases (connection_of l seat)) [
      | inl gone ↦
          ground (arith, at j, rw gone at (of d), fresh j, h d j, eq_iff seat j, eq_iff c d)
      | inr (old, there) ↦ ground (
        arith,
        at j,
        rw there at (of d),
        fresh j,
        h d j,
        h old seat there,
        eq_iff seat j,
        eq_iff c d,
        eq_iff old d,
      )
    ]

-- A connection that is there after a step was there before, or came with the command.
brought :
    (command : RoomCommand) (l l' : Lobby)
    → Moves command l l'
    → (c : String) (j : Seat) → connection_of l' j ≡ some c
    → (connection_of l j ≡ some c) ⊎ (entrant command ≡ some c)
brought command l l' (inl (at, of)) c j found = inl (sym (at j) ∙ found)
brought command l l' (inr (inl (d, seat, left, at, of))) c j found = elim (Bool-cases (seat == j)) [
  | inl here ↦ let gone : none ≡ some c = sym (at j ∙ rw here refl) ∙ found in cc
  | inr there ↦ inl (sym (at j ∙ rw there refl) ∙ found)
]
brought command l l' (inr (inr (d, came, (seat, at, of)))) c j found =
    elim (Bool-cases (seat == j)) [
      | inl here ↦ inr (came ∙ sym (at j ∙ rw here refl) ∙ found)
      | inr there ↦ inl (sym (at j ∙ rw there refl) ∙ found)
    ]

still_AreNew :
    (command : RoomCommand) (l l' : Lobby)
    → Moves command l l'
    → (commands : List RoomCommand)
    → All (λ later. (c : String) → entrant command ≡ some c → entrant later ≢ some c) commands
    → AreNew l commands
    → AreNew l' commands
still_AreNew command l l' moves [] apart new = tt
still_AreNew command l l' moves (later ∷ commands) (apart, rest) (new, news) = (
  λ c j comes found. elim (brought command l l' moves c j found) [
    | inl before ↦ new c j comes before
    | inr earlier ↦ apart c earlier comes
  ],
  still_AreNew command l l' moves commands rest news,
)

pub lobby_steps-IsExact :
    (commands : List RoomCommand) (l : Lobby)
    → EnterOnce commands
    → AreNew l commands
    → IsExact l
    → IsExact (lobby_steps commands l)
unfolding lobby_steps
lobby_steps-IsExact [] l once new h = h
lobby_steps-IsExact (command ∷ commands) l (apart, once) (fresh, new) h =
    let l' : Lobby = lobby_step command l in
    let moves = lobby_step-Moves command l in
    lobby_steps-IsExact commands l' once (still_AreNew command l l' moves commands apart new)
      (elim moves [
        | inl stays ↦ Stays-IsExact l l' stays h
        | inr (inl leaves) ↦ Leaves-IsExact l l' leaves h
        | inr (inr (c, comes, enters)) ↦ Enters-IsExact c l l' (λ j. fresh c j comes) enters h
      ])
