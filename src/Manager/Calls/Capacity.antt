-- ===== src/Manager/Calls/Capacity.antt =====
-- No room of the server ever has more players than seats (src/room.rs: RoomState, RoomManager).
use gb_mahjong_server_rust.Prelude.{ℕ, ◌≤◌, ◌≡◌, some, List, String, nat_eq, arith}
use gb_mahjong_server_rust.HashMap.{get, len}
use gb_mahjong_server_rust.Proto.Client.{seat_eq}
use gb_mahjong_server_rust.Engine.{RuleEngineHandle}
use gb_mahjong_server_rust.World.{World}
use gb_mahjong_server_rust.Room.State.{RoomState}
use gb_mahjong_server_rust.Room.Invariant.{IsWellFormed}
use gb_mahjong_server_rust.Room.Invariant.Count.{len-taken}
use gb_mahjong_server_rust.Room.Invariant.Join.{unspecified_free}
use gb_mahjong_server_rust.Manager.{RoomTask}
use gb_mahjong_server_rust.Manager.Calls.{System, Move, run}
use gb_mahjong_server_rust.Manager.Calls.Sound.{started}
use gb_mahjong_server_rust.Manager.Calls.Channels.{reached-IsSound}

four_at_most : (s : RoomState) → IsWellFormed s → len s.players_by_seat ≤ 4
four_at_most s v = ground (arith, len-taken s.players_by_seat v.distinct (unspecified_free s v))

module _ (rule_engine : RuleEngineHandle) (send_error : String) (w : World) (xs : List Move)
    (s : System) (reached : run xs (started rule_engine send_error w) ≡ some s) where
  -- From the start, in every order of the calls, of their steps and of the tasks' turns, no room has
  -- more than four players.
  pub players-le-four :
      (k : ℕ) (t : RoomTask) → get k s.manager.tasks ≡ some t → len t.state.players_by_seat ≤ 4
  players-le-four k t there =
      let sound = reached-IsSound rule_engine send_error w xs s reached in
      four_at_most t.state (sound.registered.well_formed k t there)
