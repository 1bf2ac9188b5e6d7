-- ===== src/Room/Connection/Away.antt =====
-- What a lost connection leaves (src/room.rs: handle_disconnect).
use gb_mahjong_server_rust.Prelude.{
  ◌≡◌, ◌≢◌, ap, ◌∙◌, ◌⊎◌, inl, inr, none, some, false, String, string_eq, eq_self, eq_iff, arith,
  Option-cases,
}
use gb_mahjong_server_rust.HashMap.{get}
use gb_mahjong_server_rust.HashMap.Laws.{get-insert_same, get-insert_other, get-remove}
use gb_mahjong_server_rust.Proto.Client.{Seat, seat_eq}
use gb_mahjong_server_rust.Room.State.{PlayerSlot, RoomState, Room}
use gb_mahjong_server_rust.Room.Reconnect.{handle_disconnect, detach, drop_connection}
use gb_mahjong_server_rust.Room.Invariant.{IsWellFormed}
use gb_mahjong_server_rust.Room.Connection.Lost.{handle_disconnect-unknown}
use gb_mahjong_server_rust.Room.Connection.Resume.{left}

-- The player without a connection.
abbrev pub away : PlayerSlot → PlayerSlot
away player = record player { connected = false; connection_id = none; outbound_tx = none }

-- The player lost the connection and kept the seat, and nothing else changed in the tables.
abbrev pub IsAway : String → Seat → PlayerSlot → Room → Room → Type 0
IsAway connection_id seat player r r' =
    (get seat r'.state.players_by_seat ≡ some (away player))
    × (get connection_id r'.state.connection_to_user ≡ none)
    × (r'.state.user_to_seat ≡ r.state.user_to_seat)
    × (r'.state.phase ≡ r.state.phase)
    × ((other : Seat)
        → seat ≢ other
        → get other r'.state.players_by_seat ≡ get other r.state.players_by_seat)
    × ((other : String)
        → connection_id ≢ other
        → get other r'.state.connection_to_user ≡ get other r.state.connection_to_user)

known-IsAway :
    (connection_id user_id : String) (seat : Seat) (player : PlayerSlot) (r : Room)
    → get connection_id r.state.connection_to_user ≡ some user_id
    → get user_id r.state.user_to_seat ≡ some seat
    → get seat r.state.players_by_seat ≡ some player
    → IsAway connection_id seat player r (handle_disconnect connection_id r)
unfolding detach drop_connection
known-IsAway connection_id user_id seat player r known found there =
    let (n, e) = left connection_id user_id seat player r known found there in
    let slots = r.state.players_by_seat in
    let routes = r.state.connection_to_user in
    (
      ap (λ (s : RoomState). get seat s.players_by_seat) e
          ∙ get-insert_same seat (away player) slots,
      ap (λ (s : RoomState). get connection_id s.connection_to_user) e
          ∙ get-remove connection_id connection_id routes
          ∙ rw (eq_self connection_id),
      ap (λ (s : RoomState). s.user_to_seat) e,
      ap (λ (s : RoomState). s.phase) e,
      λ other apart.
          ap (λ (s : RoomState). get other s.players_by_seat) e
          ∙ get-insert_other seat other (away player) slots apart,
      λ other apart.
          ap (λ (s : RoomState). get other s.connection_to_user) e
          ∙ get-remove connection_id other routes
          ∙ ground (arith, eq_iff connection_id other),
    )

-- In a well-formed room, the disconnect of a connection that the room knows belongs to a seated
-- player, who keeps the seat, the score and all else but is without a connection afterwards; the
-- connection is forgotten, and no other player, other connection, user's seat nor the phase changes.
-- The disconnect of any other connection does nothing at all.
pub handle_disconnect-outcome :
    (connection_id : String) (r : Room)
    → IsWellFormed r.state
    → ((get connection_id r.state.connection_to_user ≡ none)
        × (handle_disconnect connection_id r ≡ r))
      ⊎ ((user_id : String) × (seat : Seat) × (player : PlayerSlot) × (get connection_id
              r.state.connection_to_user
            ≡ some user_id)
          × (get user_id r.state.user_to_seat ≡ some seat)
          × (get seat r.state.players_by_seat ≡ some player)
          × IsAway connection_id seat player r (handle_disconnect connection_id r))
handle_disconnect-outcome connection_id r v =
    elim (Option-cases (get connection_id r.state.connection_to_user)) [
      | inl unknown ↦ inl (unknown, handle_disconnect-unknown connection_id r unknown)
      | inr (user_id, known) ↦
          let (seat, found) = v.routed connection_id user_id known in
          let (player, there, mine) = v.seated user_id seat found in
          inr (
            user_id,
            seat,
            player,
            known,
            found,
            there,
            known-IsAway connection_id user_id seat player r known found there,
          )
    ]
