-- ===== src/Tests/Unordered.antt =====
-- The theorem about the order of the players' table, applied to two players.
use mathlib.Core.List.{Perm}
use mathlib.Core.List.Perm
use gb_mahjong_server_rust.Prelude.{◌≡◌, refl, true, some, [], ◌∷◌}
use gb_mahjong_server_rust.HashMap.{HashMap, get}
use gb_mahjong_server_rust.Proto.Client.{Seat, seat_eq, seat_number}
use gb_mahjong_server_rust.Room.State.{PlayerSlot, Room}
use gb_mahjong_server_rust.Room.Send.{broadcast_connection_changed}
use gb_mahjong_server_rust.Room.Seating.{is_all_ready}
use gb_mahjong_server_rust.Room.Unordered.{broadcast_connection_changed-Perm}
use gb_mahjong_server_rust.Tests.Data.{empty_room}
use gb_mahjong_server_rust.Tests.Facts.{ann}

abbrev bob : PlayerSlot
bob = record ann {
  user_id = "bob";
  display_name = "bob";
  seat = Seat.south;
  connection_id = some "conn-2";
  outbound_tx = some 2;
  resume_token = "resume-alpha-bob";
}

abbrev ann_first : HashMap Seat PlayerSlot
ann_first = (Seat.east, ann) ∷ (Seat.south, bob) ∷ []

abbrev bob_first : HashMap Seat PlayerSlot
bob_first = (Seat.south, bob) ∷ (Seat.east, ann) ∷ []

abbrev two_room : Room
two_room = record empty_room { state = record empty_room.state { players_by_seat = ann_first } }

ann_before : get Seat.east ann_first ≡ some ann
unfolding get seat_number
ann_before = refl

ann_after : get Seat.east bob_first ≡ some ann
unfolding get seat_number
ann_after = refl

broadcast_connection_changed-Perm_example :
    let r' : Room = record two_room {
      state = record two_room.state { players_by_seat = bob_first };
    } in
    (is_all_ready two_room.state ≡ is_all_ready r'.state)
    × Perm
        (broadcast_connection_changed Seat.east true two_room).world.sent
        (broadcast_connection_changed Seat.east true r').world.sent
broadcast_connection_changed-Perm_example =
    broadcast_connection_changed-Perm Seat.east true ann two_room bob_first
      (Perm.swap (Seat.south, bob) (Seat.east, ann) []) ann_before ann_after
