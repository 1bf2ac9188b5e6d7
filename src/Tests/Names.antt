-- ===== src/Tests/Names.antt =====
-- The theorems about names and tokens, applied to a new server and to ann's seat.
use gb_mahjong_server_rust.Prelude.{ℕ, ◌≡◌, refl, arith}
use gb_mahjong_server_rust.Proto.Client.{Seat}
use gb_mahjong_server_rust.Engine.{noop}
use gb_mahjong_server_rust.App.{AppState, default, with_room_manager}
use gb_mahjong_server_rust.App.Numbering.{connection_id_at-injective}
use gb_mahjong_server_rust.Room.Invariant.Run.{run_room_task-IsWellFormed}
use gb_mahjong_server_rust.Room.Connection.Distinct.{resume_token-injective}
use gb_mahjong_server_rust.Tests.Data.{quiet_world, joined_one, ann_room}
use gb_mahjong_server_rust.Tests.Facts.{ann, ann_slot}

abbrev new_app : AppState
new_app = default "closed" quiet_world

connection_id_at-injective_example : ◌≡◌ {A = ℕ} 2 2
unfolding default with_room_manager
connection_id_at-injective_example =
    connection_id_at-injective 2 2 new_app (omega arith) (omega arith) refl

resume_token-injective_example : Seat.east ≡ Seat.east
resume_token-injective_example =
    resume_token-injective ann_room.state Seat.east Seat.east ann ann
      (run_room_task-IsWellFormed "alpha" noop quiet_world joined_one) ann_slot ann_slot refl
