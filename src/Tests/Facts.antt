-- ===== src/Tests/Facts.antt =====
-- What the rooms of the tests come to, by computation.
use gb_mahjong_server_rust.Prelude.{
  ℕ, ◌≡◌, ◌≢◌, refl, some, none, true, false, List, [], ◌∷◌, map, String, string_eq, ◌==◌, eq_iff,
  nat_eq,
}
use gb_mahjong_server_rust.HashMap.{get, insert, remove}
use gb_mahjong_server_rust.Proto.Client.{Seat, PlayerStatus, ServerFrame, seat_eq, seat_number}
use gb_mahjong_server_rust.Engine
use gb_mahjong_server_rust.World.{ConnectionSender, unix_time_ms, send, send_frame}
use gb_mahjong_server_rust.Room.State.{
  PlayerSlot, new, next_open_seat, seat_for_connection, allocate_event_seq, initial_score,
}
use gb_mahjong_server_rust.Room.Frames.{
  build_join_room_response, build_player_connection_changed, build_sync_state_for,
}
use gb_mahjong_server_rust.Room.Send.{
  sync_seat, sync_seats, broadcast_sync_state, send_player, send_players, announce,
  broadcast_connection_changed, reject_target,
}
use gb_mahjong_server_rust.Room.Seating.{
  respond_join, resume_token_for, new_player, seat_player, admit, handle_join,
}
use gb_mahjong_server_rust.Room.Action.{handle_command, run_room_task}
use gb_mahjong_server_rust.Tests.Data.{ann_room}

abbrev pub ann : PlayerSlot
ann = record {
  user_id = "ann";
  display_name = "ann";
  seat = Seat.east;
  status = PlayerStatus.joined;
  score = initial_score;
  connected = true;
  auto_play_enabled = false;
  connection_id = some "conn-1";
  outbound_tx = some 1;
  resume_token = "resume-alpha-ann";
}

abbrev seqs : List (ConnectionSender × ServerFrame) → List ℕ
seqs l = map (λ p. p.1.event_seq) l

ann_facts :
    (get "ann" ann_room.state.user_to_seat ≡ some Seat.east)
    × (get "conn-1" ann_room.state.connection_to_user ≡ some "ann")
    × (get Seat.east ann_room.state.players_by_seat ≡ some ann)
    × (reject_target ann_room.state "conn-1" ≡ some 1)
    × (seat_for_connection ann_room.state "conn-9" ≡ none)
    × (seat_for_connection ann_room.state "conn-1" ≡ some Seat.east)
unfolding run_room_task handle_command handle_join admit seat_player new_player respond_join
    resume_token_for broadcast_sync_state broadcast_connection_changed announce sync_seats sync_seat
    send_players send_player send send_frame allocate_event_seq next_open_seat new get insert remove
    seat_number build_join_room_response build_player_connection_changed build_sync_state_for
    unix_time_ms Engine.noop reject_target seat_for_connection
ann_facts = (refl, refl, refl, refl, refl, refl)

pub ann_seat : get "ann" ann_room.state.user_to_seat ≡ some Seat.east
ann_seat = let (x, _, _, _, _, _) = ann_facts in x

pub ann_route : get "conn-1" ann_room.state.connection_to_user ≡ some "ann"
ann_route = let (_, x, _, _, _, _) = ann_facts in x

pub ann_slot : get Seat.east ann_room.state.players_by_seat ≡ some ann
ann_slot = let (_, _, x, _, _, _) = ann_facts in x

pub ann_target : reject_target ann_room.state "conn-1" ≡ some 1
ann_target = let (_, _, _, x, _, _) = ann_facts in x

pub stranger : seat_for_connection ann_room.state "conn-9" ≡ none
stranger = let (_, _, _, _, x, _) = ann_facts in x

pub ann_at : seat_for_connection ann_room.state "conn-1" ≡ some Seat.east
ann_at = let (_, _, _, _, _, x) = ann_facts in x

-- A join is answered under the numbers 1, 2 and 3: the answer, the table and the connection.
ann_room_seqs : seqs ann_room.world.sent ≡ 1 ∷ 2 ∷ 3 ∷ []
unfolding run_room_task handle_command handle_join admit seat_player new_player respond_join
    resume_token_for broadcast_sync_state broadcast_connection_changed announce sync_seats sync_seat
    send_players send_player send send_frame allocate_event_seq next_open_seat new get insert remove
    seat_number build_join_room_response build_player_connection_changed build_sync_state_for
    unix_time_ms Engine.noop
ann_room_seqs = refl

pub other_connection : ◌≢◌ {A = String} "conn-9" "conn-1"
other_connection same =
    let h : ◌==◌ {A = String} "conn-9" "conn-1" ≡ true =
      (eq_iff {A = String} "conn-9" "conn-1").1 same in
    cc
