-- ===== src/Tests/Data.antt =====
-- Rooms, connections and requests that the tests share.
use gb_mahjong_server_rust.Prelude.{ℕ, String, some, List, [], ◌∷◌, ◌++◌, true, false}
use gb_mahjong_server_rust.Prelude.Int.{ℤ}
use gb_mahjong_server_rust.Proto.Client.{
  JoinRoomRequest, ReadyRequest, ResumeSessionRequest, PlayerActionRequest, discard,
}
use gb_mahjong_server_rust.Engine.{noop}
use gb_mahjong_server_rust.World.{ConnectionHandle, World}
use gb_mahjong_server_rust.Room.State.{Room, new}
use gb_mahjong_server_rust.Room.Action.{RoomCommand, join, disconnect, run_room_task}

abbrev pub quiet_world : World
quiet_world = record { clock = λ k. some 1000; reads = 0; calls = 0; sent = [] }

abbrev pub empty_room : Room
empty_room = record { state = new "alpha" noop; world = quiet_world }

abbrev pub conn : String → ℕ → ConnectionHandle
conn connection_id outbound_tx = record { connection_id = connection_id; outbound_tx = outbound_tx }

abbrev pub join_as : String → JoinRoomRequest
join_as user_id = record {
  room_id = "alpha";
  user_id = user_id;
  session_token = "";
  display_name = user_id;
  client_version = "test";
}

abbrev pub resume_as : String → String → ResumeSessionRequest
resume_as user_id resume_token = record {
  room_id = "alpha";
  user_id = user_id;
  resume_token = resume_token;
  last_received_event_seq = 0;
}

abbrev pub ready_request : ReadyRequest
ready_request = record { ready = true }

abbrev pub joined_one : List RoomCommand
joined_one = join "r1" (conn "conn-1" 1) (join_as "ann") ∷ []

abbrev pub joined_two : List RoomCommand
joined_two =
    join "r1" (conn "conn-1" 1) (join_as "ann") ∷ join "r2" (conn "conn-2" 2) (join_as "bob") ∷ []

-- A room in which ann sits on the east seat.
abbrev pub ann_room : Room
ann_room = run_room_task joined_one empty_room

-- The same room after ann's connection is lost.
abbrev pub left_room : Room
left_room = run_room_task (joined_one ++ disconnect "conn-1" ∷ []) empty_room

abbrev pub discard_tile : ℤ → PlayerActionRequest
discard_tile tile = record {
  room_id = "alpha";
  match_id = "match-alpha";
  round_id = "hand-1";
  expected_event_seq = 3;
  action_window_id = 1;
  action = some (discard (record { tile = tile; tsumogiri = false }));
}
