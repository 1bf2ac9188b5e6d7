-- ===== src/Manager/Calls/Changes.antt =====
-- What one step of a caller or a task does to the registry and to the lengths of the channels
-- (src/room.rs: RoomManager, run_room_task).
use gb_mahjong_server_rust.Prelude.{
  ℕ, suc, ◌+◌, ◌≤◌, ◌<◌, ◌≡◌, ◌≢◌, refl, sym, ap, ◌∙◌, subst, inl, inr, true, false, none, some,
  List, [], ◌∷◌, ◌++◌, String, nat_eq, string_eq, length, length-append, leb, Option-cases, arith,
}
use native.Mathlib.Decide.{ℕ_discrete}
use gb_mahjong_server_rust.HashMap.{get, insert}
use gb_mahjong_server_rust.HashMap.Laws.{get-insert_same, get-insert_other}
use gb_mahjong_server_rust.Room.Action.{
  RoomCommand, join, ready, resume_session, player_action, disconnect, handle_command,
}
use gb_mahjong_server_rust.World.{World}
use gb_mahjong_server_rust.Room.State.{Room, new}
use gb_mahjong_server_rust.Manager.{
  RoomTask, RoomManager, get_room_sender, spawn_room, create_room_sender, enqueue, reply,
  send_command, take_command, run_task,
}
use gb_mahjong_server_rust.Manager.Registry.{IsRegistered}
use gb_mahjong_server_rust.Manager.Calls.{
  ManagerCall, to_join, to_ready, to_resume, to_act, to_leave, CallState, sending, room_of, absent,
  look_up, create, submit, is_full, room_command_buffer,
}

-- How many commands wait in a task's channel.
unfoldable pub pending : ℕ → RoomManager → ℕ
pending k m = elim (get k m.tasks) [ none ↦ 0 | some task ↦ length task.queue ]

-- Only the channel of one task changes, and its room's state.
pub record Differs (k : ℕ) (m m' : RoomManager) : Type 0 where
  pub same_rooms : m'.rooms ≡ m.rooms
  pub same_spawned : m'.spawned ≡ m.spawned
  pub elsewhere : (j : ℕ) → k ≢ j → pending j m' ≡ pending j m

-- No room loses its entry, and no channel changes its length.
pub record Opens (m m' : RoomManager) : Type 0 where
  pub keeps :
      (room_id : String) (k : ℕ) → get room_id m.rooms ≡ some k → get room_id m'.rooms ≡ some k
  pub more : m.spawned ≤ m'.spawned
  pub at_most_one : m'.spawned ≤ m.spawned + 1
  pub lengths : (j : ℕ) → pending j m' ≡ pending j m
  pub unused : pending m.spawned m ≡ 0

module _ (m : RoomManager) (k : ℕ) (t' : RoomTask) where
  abbrev replaced : RoomManager
  replaced = record m { tasks = insert k t' m.tasks }

  pending-replaced_same : pending k replaced ≡ length t'.queue
  unfolding pending
  pending-replaced_same = rw (get-insert_same k t' m.tasks, pending) refl

  pending-replaced_other : (j : ℕ) → k ≢ j → pending j replaced ≡ pending j m
  unfolding pending
  pending-replaced_other j apart = rw (get-insert_other k j t' m.tasks apart, pending) refl

  -- The registry is kept when a task is replaced, and the world may change.
  replaced-Differs :
      (m' : RoomManager)
      → m'.rooms ≡ m.rooms
      → m'.spawned ≡ m.spawned
      → m'.tasks ≡ insert k t' m.tasks
      → Differs k m m' × (pending k m' ≡ length t'.queue)
  unfolding pending
  replaced-Differs m' rooms spawned tasks = (
    record {
      same_rooms = rooms;
      same_spawned = spawned;
      elsewhere = λ j apart. rw (tasks, pending) (pending-replaced_other j apart);
    },
    rw (tasks, pending) pending-replaced_same,
  )

module _ (m : RoomManager) (k : ℕ) (t : RoomTask) (there : get k m.tasks ≡ some t) where
  pub pending_here : pending k m ≡ length t.queue
  unfolding pending
  pending_here = rw (there, pending) refl

  enqueued_one :
      (command : RoomCommand)
      → (m' : RoomManager) × (enqueue k command m ≡ some m')
        × Differs k m m'
        × (pending k m' ≡ suc (pending k m))
  unfolding enqueue
  enqueued_one command =
      let t' : RoomTask = record t { queue = t.queue ++ command ∷ [] } in
      let (d, n) = replaced-Differs m k t' (replaced m k t') refl refl refl in
      (
        replaced m k t',
        rw (there, enqueue) refl,
        d,
        n ∙ omega (arith, length-append t.queue (command ∷ []), pending_here),
      )

  -- The channel of a running task takes the command of any call.
  pub submit_lem :
      (call : ManagerCall)
      → Differs k m (submit call k m) × (pending k (submit call k m) ≡ suc (pending k m))
  unfolding submit send_command
  submit_lem (to_join request_id connection request) =
      let (m', e, d, n) = enqueued_one (join request_id connection request) in
      rw (e, submit, send_command) (d, n)
  submit_lem (to_ready room_id request_id connection request) =
      let (m', e, d, n) = enqueued_one (ready request_id connection.connection_id request) in
      rw (e, submit, send_command) (d, n)
  submit_lem (to_resume request_id connection request) =
      let (m', e, d, n) = enqueued_one (resume_session request_id connection request) in
      rw (e, submit, send_command) (d, n)
  submit_lem (to_act request_id connection request) =
      let (m', e, d, n) =
        enqueued_one (player_action request_id connection.connection_id request) in
      rw (e, submit, send_command) (d, n)
  submit_lem (to_leave room_id connection_id) =
      let (m', e, d, n) = enqueued_one (disconnect connection_id) in
      rw (e, submit, send_command) (d, n)

  pub not_full : is_full k m ≡ false → pending k m < room_command_buffer
  unfolding is_full
  not_full h =
      let room : leb room_command_buffer (length t.queue) ≡ false =
        sym (rw (there, is_full) refl) ∙ h in
      ground (arith, pending_here)

  pub full : is_full k m ≡ true → room_command_buffer ≤ pending k m
  unfolding is_full
  full h =
      let none_left : leb room_command_buffer (length t.queue) ≡ true =
        sym (rw (there, is_full) refl) ∙ h in
      ground (arith, pending_here)

  -- A task that has a command handles the oldest one.
  pub served_one :
      (command : RoomCommand) (queue : List RoomCommand)
      → t.queue ≡ command ∷ queue
      → Differs k m (run_task k m) × (pending k m ≡ suc (pending k (run_task k m)))
  unfolding run_task take_command
  served_one command queue e =
      let r : Room = handle_command command (record { state = t.state; world = m.world }) in
      let t' : RoomTask = record { state = r.state; queue = queue } in
      let turn : run_task k m ≡ take_command k t.state (command ∷ queue) m =
        rw (there, run_task, e) refl in
      let (d, n) =
        replaced-Differs m k t' (take_command k t.state (command ∷ queue) m) refl refl refl in
      rw turn (d, pending_here ∙ rw e (ap suc (sym n)))

-- A call that waits for room in a channel has the one of its room.
abbrev pub Points : ManagerCall → CallState → RoomManager → Type 0
Points call (sending sender) m = get (room_of call) m.rooms ≡ some sender
Points call _ m = Unit

module _ (m : RoomManager) (v : IsRegistered m) where
  next-unused : pending m.spawned m ≡ 0
  unfolding pending
  next-unused = elim (Option-cases (get m.spawned m.tasks)) [
    | inl e ↦ rw (e, pending) refl
    | inr (t, e) ↦ let below = v.numbered m.spawned t e in absurd (omega arith)
  ]

  with_world-Opens : (w : World) → Opens m (record m { world = w })
  unfolding pending
  with_world-Opens w = record {
    keeps = λ room_id k e. e;
    more = omega arith;
    at_most_one = omega arith;
    lengths = λ j. refl;
    unused = next-unused;
  }

  -- Neither a reply nor going on to the write lock touches the registry.
  absent_lem :
      (call : ManagerCall)
      → Opens m (absent call m).1 × Points call (absent call m).0 (absent call m).1
  unfolding absent reply
  absent_lem (to_join request_id connection request) = (with_world-Opens _, tt)
  absent_lem (to_ready room_id request_id connection request) = (with_world-Opens _, tt)
  absent_lem (to_resume request_id connection request) = (with_world-Opens _, tt)
  absent_lem (to_act request_id connection request) = (with_world-Opens _, tt)
  absent_lem (to_leave room_id connection_id) = (with_world-Opens _, tt)

  pub look_up_lem :
      (call : ManagerCall)
      → Opens m (look_up call m).1 × Points call (look_up call m).0 (look_up call m).1
  unfolding look_up get_room_sender
  look_up_lem call = elim (Option-cases (get (room_of call) m.rooms)) [
    | inl e ↦ rw (e, look_up, get_room_sender) (absent_lem call)
    | inr (k, e) ↦ rw (e, look_up, get_room_sender) (with_world-Opens m.world, e)
  ]

  module _ (room_id : String) (fresh : get room_id m.rooms ≡ none) where
    first : RoomTask
    first = record { state = new room_id m.rule_engine; queue = [] }

    opened-lengths : (j : ℕ) → pending j (replaced m m.spawned first) ≡ pending j m
    unfolding first
    opened-lengths j = elim (ℕ_discrete m.spawned j) [
      | yes next ↦
          subst (λ (i : ℕ). pending i (replaced m m.spawned first) ≡ pending i m) next
            (pending-replaced_same m m.spawned first ∙ sym next-unused)
      | no apart ↦ pending-replaced_other m m.spawned first j apart
    ]

    spawn_room-Opens : Opens m (spawn_room room_id m).1
    unfolding spawn_room pending first
    spawn_room-Opens = record {
      keeps = λ other k e. get-insert_other room_id other m.spawned m.rooms (λ same. cc) ∙ e;
      more = omega arith;
      at_most_one = omega arith;
      lengths = opened-lengths;
      unused = next-unused;
    }

  -- The write lock finds or makes the entry of the room.
  pub create_lem :
      (call : ManagerCall)
      → Opens m (create call m).1 × Points call (create call m).0 (create call m).1
  unfolding create create_room_sender spawn_room
  create_lem call = elim (Option-cases (get (room_of call) m.rooms)) [
    | inl e ↦
        rw (e, create, create_room_sender)
          (spawn_room-Opens (room_of call) e, get-insert_same (room_of call) m.spawned m.rooms)
    | inr (k, e) ↦ rw (e, create, create_room_sender) (with_world-Opens m.world, e)
  ]
