-- ===== src/Tests/Calls.antt =====
-- Callers of the rooms' manager whose steps mix (src/room.rs: RoomManager).
use gb_mahjong_server_rust.Prelude.{
  ℕ, ◌*◌, ◌≤◌, ◌≡◌, refl, ◌⊎◌, none, some, List, [], ◌∷◌, ◌++◌, nat_eq, string_eq, length,
  unwrap_or,
}
use gb_mahjong_server_rust.Prelude.Positions.{get_elem?}
use gb_mahjong_server_rust.HashMap.{get, insert, len}
use gb_mahjong_server_rust.Engine.{noop}
use gb_mahjong_server_rust.Room.State.{new}
use gb_mahjong_server_rust.Manager.{RoomTask, with_rule_engine}
use gb_mahjong_server_rust.Manager.Calls.{
  sending, Caller, System, Move, arrive, go_on, serve, ManagerCall, to_join, run,
}
use gb_mahjong_server_rust.Manager.Calls.Changes.{pending}
use gb_mahjong_server_rust.Manager.Calls.Sound.{started}
use gb_mahjong_server_rust.Manager.Calls.Channels.{reached-IsRegistered, sending_together}
use gb_mahjong_server_rust.Manager.Calls.Work.{arrivals, run-ends}
use gb_mahjong_server_rust.Manager.Calls.Progress.{IsIdle, Available, run-completes}
use gb_mahjong_server_rust.Manager.Calls.History.{Ran}
use gb_mahjong_server_rust.Manager.Calls.Log.{command_of, all_handed, all_handled}
use gb_mahjong_server_rust.Manager.Calls.Handled.{task-Ran}
use gb_mahjong_server_rust.Manager.Calls.Capacity.{players-le-four}
use gb_mahjong_server_rust.Manager.Registry.{IsRegistered}
use gb_mahjong_server_rust.Tests.Data.{quiet_world, conn, join_as}

abbrev ann_joins : ManagerCall
ann_joins = to_join "r1" (conn "conn-1" 1) (join_as "ann")

abbrev bob_joins : ManagerCall
bob_joins = to_join "r2" (conn "conn-2" 2) (join_as "bob")

-- Both look for the room before either creates it.
abbrev both_look : List Move
both_look = arrive ann_joins ∷ arrive bob_joins ∷ go_on 0 ∷ go_on 1 ∷ go_on 1 ∷ go_on 0 ∷ []

abbrev start : System
start = started noop "channel closed" quiet_world

after : List Move → System
unfolding run
after xs = elim (run xs start) [ none ↦ start | some s ↦ s ]

both_sending : System
unfolding after
both_sending = after both_look

both_sending-reached : run both_look start ≡ some both_sending
unfolding run both_sending started with_rule_engine get insert
both_sending-reached = refl

one_sent : System
unfolding after
one_sent = after (both_look ++ go_on 0 ∷ [])

one_sent-reached : run (both_look ++ go_on 0 ∷ []) start ≡ some one_sent
unfolding run one_sent started with_rule_engine get insert
one_sent-reached = refl

one_waits : pending 0 one_sent.manager ≡ 1
unfolding one_sent pending get started insert
one_waits = refl

-- A caller of `both_sending`.
abbrev at_send : ManagerCall → Caller
at_send call = record { call = call; at = sending 0 }

first_caller : get_elem? both_sending.callers 0 ≡ some (at_send ann_joins)
unfolding both_sending started get insert
first_caller = refl

second_caller : get_elem? both_sending.callers 1 ≡ some (at_send bob_joins)
unfolding both_sending started get insert
second_caller = refl

sending_together_example :
    ◌≡◌ {A = ℕ} 0 0
    × (t : RoomTask) × (get 0 both_sending.manager.tasks ≡ some t)
    × (t.state.room_id ≡ "alpha")
sending_together_example =
    sending_together noop "channel closed" quiet_world both_look both_sending both_sending-reached 0
      1 0 0 (at_send ann_joins) (at_send bob_joins) first_caller second_caller refl refl refl

reached-IsRegistered_example : IsRegistered both_sending.manager
reached-IsRegistered_example =
    reached-IsRegistered noop "channel closed" quiet_world both_look both_sending
      both_sending-reached

run-ends_example : length both_look ≤ 5 * arrivals both_look
run-ends_example =
    run-ends noop "channel closed" quiet_world both_look both_sending both_sending-reached

run-completes_example :
    (IsIdle both_sending ⊎ Available both_sending)
    × (ys : List Move) × (s : System) × (run ys both_sending ≡ some s)
    × (arrivals ys ≡ 0)
    × IsIdle s
unfolding noop
run-completes_example =
    run-completes noop "channel closed" quiet_world both_look both_sending both_sending-reached
      (λ call. refl)

-- Both joins are sent and one of them is handled.
abbrev pub one_handled : List Move
one_handled = both_look ++ go_on 0 ∷ go_on 1 ∷ serve 0 ∷ []

unfoldable pub worked : System
unfolding after
worked = after one_handled

pub worked-reached : run one_handled start ≡ some worked
unfolding run worked started with_rule_engine get insert noop
worked-reached = refl

pub first_task : RoomTask
unfolding worked
first_task =
    unwrap_or (get 0 worked.manager.tasks) (record { state = new "alpha" noop; queue = [] })

pub first_task-there : get 0 worked.manager.tasks ≡ some first_task
unfolding first_task started with_rule_engine get insert noop
first_task-there = refl

task-Ran_example :
    Ran (new first_task.state.room_id noop) (all_handled 0 one_handled start) first_task.state
    × (all_handed 0 one_handled start ≡ all_handled 0 one_handled start ++ first_task.queue)
task-Ran_example =
    task-Ran noop "channel closed" quiet_world 0 one_handled worked first_task worked-reached
      first_task-there

-- Ann's join is sent before bob's.
sent_in_order : all_handed 0 one_handled start ≡ command_of ann_joins ∷ command_of bob_joins ∷ []
unfolding all_handed run started with_rule_engine get insert noop
sent_in_order = refl

players-le-four_example : len first_task.state.players_by_seat ≤ 4
players-le-four_example =
    players-le-four noop "channel closed" quiet_world one_handled worked worked-reached 0 first_task
      first_task-there
