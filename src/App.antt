-- ===== src/App.antt =====
-- src/app.rs: what all connections share.
pub mod Numbering
use gb_mahjong_server_rust.Prelude.{ℕ, String, wrapping_add}
use gb_mahjong_server_rust.Prelude.Text.{◌+++◌}
use gb_mahjong_server_rust.Prelude.Decimal.{show_ℕ}
use gb_mahjong_server_rust.Engine.{noop}
use gb_mahjong_server_rust.World.{World}
use gb_mahjong_server_rust.Manager.{RoomManager, with_rule_engine}

-- The two counters are atomic; the rooms' manager is shared by all clones of the state.
pub record AppState : Type 0 where
  pub next_connection_id : ℕ
  pub next_event_seq : ℕ
  pub room_manager : RoomManager

unfoldable pub with_room_manager : RoomManager → AppState
with_room_manager room_manager = record {
  next_connection_id = 1;
  next_event_seq = 1;
  room_manager = room_manager;
}

-- `AppState::default`
unfoldable pub default : String → World → AppState
unfolding with_room_manager with_rule_engine
default send_error w = with_room_manager (with_rule_engine noop send_error w)

-- `fetch_add` wraps around.
unfoldable pub allocate_connection_id : AppState → String × AppState
unfolding show_ℕ
allocate_connection_id app = (
  "conn-" +++ show_ℕ app.next_connection_id,
  record app { next_connection_id = wrapping_add app.next_connection_id 1 },
)

unfoldable pub next_event_seq : AppState → ℕ × AppState
next_event_seq app =
    (app.next_event_seq, record app { next_event_seq = wrapping_add app.next_event_seq 1 })
