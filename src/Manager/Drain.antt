-- ===== src/Manager/Drain.antt =====
-- A task works off its channel as run_room_task does (src/room.rs: run_room_task).
use gb_mahjong_server_rust.Prelude.{
  ℕ, zero, suc, ◌≡◌, refl, sym, subst, some, List, [], ◌∷◌, ◌++◌, String, string_eq, nat_eq, length,
}
use gb_mahjong_server_rust.HashMap.{get, insert}
use gb_mahjong_server_rust.HashMap.Laws.{get-insert_same}
use gb_mahjong_server_rust.Room.State.{RoomState, Room}
use gb_mahjong_server_rust.Room.Action.{RoomCommand, disconnect, handle_command, run_room_task}
use gb_mahjong_server_rust.Manager.{
  RoomTask, RoomManager, disconnect_from, get_room_sender, enqueue, take_command, run_task,
}

-- A disconnect of a room whose task runs is put behind the commands that wait.
pub disconnect_from-listed :
    (room_id connection_id : String) (k : ℕ) (t : RoomTask) (m : RoomManager)
    → get room_id m.rooms ≡ some k
    → get k m.tasks ≡ some t
    → disconnect_from room_id connection_id m ≡ record m {
      tasks = insert k (record t { queue = t.queue ++ disconnect connection_id ∷ [] }) m.tasks;
    }
unfolding disconnect_from get_room_sender enqueue
disconnect_from-listed room_id connection_id k t m listed runs =
    rw (listed, disconnect_from, get_room_sender, runs, enqueue) refl

-- So many turns of the task.
pub turns : ℕ → ℕ → RoomManager → RoomManager
turns zero k m = m
turns (suc n) k m = turns n k (run_task k m)

-- The task has emptied its channel and left its room and the world as `r` says; the registry is the
-- same.
abbrev pub IsDrained : ℕ → RoomManager → Room → RoomManager → Type 0
IsDrained k m r m' =
    (get k m'.tasks ≡ some (record { state = r.state; queue = [] }))
    × (m'.world ≡ r.world)
    × (m'.rooms ≡ m.rooms)

first_turn :
    (k : ℕ) (state : RoomState) (command : RoomCommand) (queue : List RoomCommand) (m : RoomManager)
    → get k m.tasks ≡ some (record { state = state; queue = command ∷ queue })
    → run_task k m ≡ take_command k state (command ∷ queue) m
unfolding run_task
first_turn k state command queue m there = rw (there, run_task) refl

drains :
    (k : ℕ) (state : RoomState) (queue : List RoomCommand) (m : RoomManager)
    → get k m.tasks ≡ some (record { state = state; queue = queue })
    → IsDrained k m
        (run_room_task queue (record { state = state; world = m.world }))
        (turns (length queue) k m)
unfolding turns run_room_task take_command
drains k state [] m there = (there, refl, refl)
drains k state (command ∷ queue) m there =
    let r : Room = handle_command command (record { state = state; world = m.world }) in
    let m' : RoomManager = take_command k state (command ∷ queue) m in
    let task : RoomTask = record { state = r.state; queue = queue } in
    subst (λ (x : RoomManager). IsDrained k m (run_room_task queue r) (turns (length queue) k x))
      (sym (first_turn k state command queue m there))
      (drains k r.state queue m' (get-insert_same k task m.tasks))

-- When a task has as many turns as its channel holds commands, and nothing else happens, the channel
-- is empty, the room and what was sent are those of the loop over these commands in their order, and
-- the registry is unchanged.
pub turns-IsDrained :
    (k : ℕ) (t : RoomTask) (m : RoomManager)
    → get k m.tasks ≡ some t
    → IsDrained k m
        (run_room_task t.queue (record { state = t.state; world = m.world }))
        (turns (length t.queue) k m)
turns-IsDrained k t m there = drains k t.state t.queue m there
