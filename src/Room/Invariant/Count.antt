-- ===== src/Room/Invariant/Count.antt =====
-- A table keyed by the four seats has as many entries as there are seats taken.
use gb_mahjong_server_rust.Prelude.{
  ℕ, ◌+◌, ◌≡◌, ◌≢◌, refl, ◌↔◌, none, some, [], ◌∷◌, if◌then◌else◌, arith,
}
use gb_mahjong_server_rust.HashMap.{HashMap, get, len, contains_key}
use gb_mahjong_server_rust.HashMap.Laws.{HasDistinctKeys}
use gb_mahjong_server_rust.Proto.Client.{Seat, seat_eq, seat_number}
use gb_mahjong_server_rust.Room.State.{RoomState, next_open_seat}

module _ {V : Type 0} where
  abbrev pub taken : Seat → HashMap Seat V → ℕ
  taken seat m = if contains_key seat m then 1 else 0

  pub len-taken :
      (m : HashMap Seat V)
      → HasDistinctKeys m
      → get Seat.unspecified m ≡ none
      → len m ≡ taken Seat.east m + taken Seat.south m + taken Seat.west m + taken Seat.north m
  unfolding get seat_number
  len-taken [] h no_other = refl
  len-taken ((Seat.unspecified, v) ∷ m) h no_other = cc
  len-taken ((Seat.east, v) ∷ m) h no_other = ground (arith, len-taken m h.1)
  len-taken ((Seat.south, v) ∷ m) h no_other = ground (arith, len-taken m h.1)
  len-taken ((Seat.west, v) ∷ m) h no_other = ground (arith, len-taken m h.1)
  len-taken ((Seat.north, v) ∷ m) h no_other = ground (arith, len-taken m h.1)

-- The seat that a join gets is free and real, and the first such in the order of play.
pub next_open_seat_free :
    (s : RoomState) (seat : Seat)
    → next_open_seat s ≡ some seat
    → (get seat s.players_by_seat ≡ none) × (seat ≢ Seat.unspecified)
unfolding next_open_seat
next_open_seat_free s seat h = ground arith

-- All four seats are taken exactly when there is none left.
pub next_open_seat_full :
    (s : RoomState)
    → HasDistinctKeys s.players_by_seat
    → get Seat.unspecified s.players_by_seat ≡ none
    → (next_open_seat s ≡ none) ↔ (len s.players_by_seat ≡ 4)
unfolding next_open_seat
next_open_seat_full s h no_other = ground (arith, len-taken s.players_by_seat h no_other)
