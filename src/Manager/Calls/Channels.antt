-- ===== src/Manager/Calls/Channels.antt =====
-- Which task there is for a room, and whom the callers of the rooms' manager wait for (src/room.rs:
-- RoomManager).
use gb_mahjong_server_rust.Prelude.{ℕ, ◌≡◌, sym, ◌∙◌, subst, some, List, String, nat_eq, string_eq}
use gb_mahjong_server_rust.Prelude.Positions.{get_elem?, All-get_elem?}
use mathlib.Core.Option.{some-injective}
use gb_mahjong_server_rust.HashMap.{get}
use gb_mahjong_server_rust.Engine.{RuleEngineHandle}
use gb_mahjong_server_rust.World.{World}
use gb_mahjong_server_rust.Manager.{RoomTask}
use gb_mahjong_server_rust.Manager.Registry.{IsRegistered}
use gb_mahjong_server_rust.Manager.Calls.{CallState, sending, Caller, System, Move, room_of, run}
use gb_mahjong_server_rust.Manager.Calls.Changes.{Points}
use gb_mahjong_server_rust.Manager.Calls.Sound.{IsSound, started, started-IsSound, run-IsSound}

module _ (rule_engine : RuleEngineHandle) (send_error : String) (w : World) (xs : List Move)
    (s : System) (reached : run xs (started rule_engine send_error w) ≡ some s) where
  pub reached-IsSound : IsSound s
  reached-IsSound =
      run-IsSound xs (started rule_engine send_error w) s (started-IsSound rule_engine send_error w)
        reached

  -- From the start, in every order of the calls, of their steps between two awaits and of the tasks'
  -- turns, also if several joins found no room before one of them created it: each room in the
  -- registry has a running task of that room, each task is the one registered for its room's id, so
  -- that no room has two, and users, seats, connections and phase of every task are in order.
  pub reached-IsRegistered : IsRegistered s.manager
  reached-IsRegistered = reached-IsSound.registered

  -- The channel at which a caller waits is that of the room's entry.
  waits_at :
      (i k : ℕ) (c : Caller)
      → get_elem? s.callers i ≡ some c
      → c.at ≡ sending k
      → get (room_of c.call) s.manager.rooms ≡ some k
  waits_at i k c here at =
      let points = All-get_elem? _ s.callers i c here reached-IsSound.addressed in
      subst (λ (a : CallState). Points c.call a s.manager) at points

  -- From the start, in every order of the steps, any two calls for the same room that have come to
  -- their send wait at the same channel, also if both found no such room under the read lock; and
  -- the task behind it is running and is that room's, so that the send does not fail.
  pub sending_together :
      (i j k l : ℕ) (c d : Caller)
      → get_elem? s.callers i ≡ some c
      → get_elem? s.callers j ≡ some d
      → c.at ≡ sending k
      → d.at ≡ sending l
      → room_of c.call ≡ room_of d.call
      → (k ≡ l)
        × (t : RoomTask) × (get k s.manager.tasks ≡ some t)
        × (t.state.room_id ≡ room_of c.call)
  sending_together i j k l c d here there at at' same =
      let p = waits_at i k c here at in
      let q = waits_at j l d there at' in
      let (t, runs, named) = reached-IsSound.registered.running (room_of c.call) k p in
      (some-injective k l (sym p ∙ rw same q), t, runs, named)
