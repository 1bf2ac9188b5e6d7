-- ===== src/Manager/Schedule.antt =====
-- The rooms' manager under any interleaving of its callers and its tasks (src/room.rs: RoomManager,
-- run_room_task).
use gb_mahjong_server_rust.Prelude.{
  ℕ, ◌≡◌, refl, inl, inr, none, some, List, [], ◌∷◌, ◌++◌, String, nat_eq, string_eq, Option-cases,
}
use gb_mahjong_server_rust.HashMap.{get, insert}
use gb_mahjong_server_rust.Proto.Client.{
  RejectCode, JoinRoomRequest, ReadyRequest, ResumeSessionRequest, PlayerActionRequest,
}
use gb_mahjong_server_rust.World.{ConnectionHandle}
use gb_mahjong_server_rust.Room.State.{Room}
use gb_mahjong_server_rust.Room.Identity.{room_id-handle_command}
use gb_mahjong_server_rust.Room.Invariant.Run.{handle_command-IsWellFormed}
use gb_mahjong_server_rust.Room.Action.{RoomCommand, join, disconnect, handle_command}
use gb_mahjong_server_rust.Manager.{
  RoomTask, RoomManager, get_room_sender, create_room_sender, get_or_create_room_sender, enqueue,
  reply, send_command, dispatch_join, dispatch_ready, dispatch_resume, dispatch_player_action,
  disconnect_from, take_command, run_task,
}
use gb_mahjong_server_rust.Manager.Registry.{
  IsRegistered, update-IsRegistered, spawn_room-IsRegistered,
}

-- What happens next: a caller's method, or a task's turn.
pub data ManagerStep : Type 0 where
  call_join : (request_id : String) → ConnectionHandle → JoinRoomRequest → ManagerStep
  call_ready : (room_id request_id : String) → ConnectionHandle → ReadyRequest → ManagerStep
  call_resume : (request_id : String) → ConnectionHandle → ResumeSessionRequest → ManagerStep
  call_player_action : (request_id : String) → ConnectionHandle → PlayerActionRequest → ManagerStep
  call_disconnect : (room_id connection_id : String) → ManagerStep
  turn : (task : ℕ) → ManagerStep

unfoldable pub manager_step : ManagerStep → RoomManager → RoomManager
manager_step (call_join request_id connection request) m =
    dispatch_join request_id connection request m
manager_step (call_ready room_id request_id connection request) m =
    dispatch_ready room_id request_id connection request m
manager_step (call_resume request_id connection request) m =
    dispatch_resume request_id connection request m
manager_step (call_player_action request_id connection request) m =
    dispatch_player_action request_id connection request m
manager_step (call_disconnect room_id connection_id) m = disconnect_from room_id connection_id m
manager_step (turn task) m = run_task task m

module _ (m : RoomManager) (v : IsRegistered m) where
  pub reply-IsRegistered :
      (connection : ConnectionHandle) (request_id : String) (reject_code : RejectCode)
      (message : String) (expected window : ℕ)
      → IsRegistered (reply connection request_id reject_code message expected window m)
  unfolding reply
  reply-IsRegistered connection request_id reject_code message expected window = record {
    running = v.running;
    registered = v.registered;
    numbered = v.numbered;
    well_formed = v.well_formed;
  }

  pub enqueued-IsRegistered :
      (k : ℕ) (t : RoomTask) (command : RoomCommand)
      → get k m.tasks ≡ some t
      → IsRegistered
          (record m { tasks = insert k (record t { queue = t.queue ++ command ∷ [] }) m.tasks })
  enqueued-IsRegistered k t command there =
      update-IsRegistered m v k t (record t { queue = t.queue ++ command ∷ [] }) m.world there refl
        (v.well_formed k t there)

  pub send_command-IsRegistered :
      (k : ℕ) (command : RoomCommand) (connection : ConnectionHandle) (room_id : String)
      → IsRegistered (send_command k command connection room_id m)
  unfolding send_command enqueue
  send_command-IsRegistered k command connection room_id = elim (Option-cases (get k m.tasks)) [
    | inl e ↦ rw (e, send_command, enqueue) (reply-IsRegistered connection "" _ _ 0 0)
    | inr (t, e) ↦ rw (e, send_command, enqueue) (enqueued-IsRegistered k t command e)
  ]

  disconnect_from-IsRegistered :
      (room_id connection_id : String) → IsRegistered (disconnect_from room_id connection_id m)
  unfolding disconnect_from get_room_sender enqueue
  disconnect_from-IsRegistered room_id connection_id = elim (Option-cases (get room_id m.rooms)) [
    | inl e ↦ rw (e, disconnect_from, get_room_sender) v
    | inr (k, e) ↦ elim (Option-cases (get k m.tasks)) [
      | inl gone ↦ rw (e, disconnect_from, get_room_sender, enqueue, gone) v
      | inr (t, there) ↦
          rw (e, disconnect_from, get_room_sender, enqueue, there)
            (enqueued-IsRegistered k t (disconnect connection_id) there)
    ]
  ]

  pub create_room_sender-IsRegistered :
      (room_id : String) → IsRegistered (create_room_sender room_id m).1
  unfolding create_room_sender
  create_room_sender-IsRegistered room_id = elim (Option-cases (get room_id m.rooms)) [
    | inl e ↦ rw (e, create_room_sender) (spawn_room-IsRegistered m v room_id e)
    | inr (k, e) ↦ rw (e, create_room_sender) v
  ]

  get_or_create_room_sender-IsRegistered :
      (room_id : String) → IsRegistered (get_or_create_room_sender room_id m).1
  unfolding get_or_create_room_sender
  get_or_create_room_sender-IsRegistered room_id = elim (Option-cases (get_room_sender room_id m)) [
    | inl e ↦ rw (e, get_or_create_room_sender) (create_room_sender-IsRegistered room_id)
    | inr (k, e) ↦ rw (e, get_or_create_room_sender) v
  ]

  -- A call that needs the room's sender.
  by_sender :
      (room_id : String) (lost : RoomManager) (found : ℕ → RoomManager)
      → IsRegistered lost
      → ((k : ℕ) → IsRegistered (found k))
      → IsRegistered (elim (get_room_sender room_id m) [ none ↦ lost | some k ↦ found k ])
  by_sender room_id lost found h g = elim (Option-cases (get_room_sender room_id m)) [
    | inl e ↦ rw e h
    | inr (k, e) ↦ rw e (g k)
  ]

  take_command-IsRegistered :
      (k : ℕ) (t : RoomTask) (queue : List RoomCommand)
      → get k m.tasks ≡ some t
      → IsRegistered (take_command k t.state queue m)
  unfolding take_command
  take_command-IsRegistered k t [] there = v
  take_command-IsRegistered k t (command ∷ queue) there =
      let r : Room = record { state = t.state; world = m.world } in
      let r' : Room = handle_command command r in
      update-IsRegistered m v k t (record { state = r'.state; queue = queue }) r'.world there
        (room_id-handle_command r command)
        (handle_command-IsWellFormed command r (v.well_formed k t there))

  pub run_task-IsRegistered : (k : ℕ) → IsRegistered (run_task k m)
  unfolding run_task
  run_task-IsRegistered k = elim (Option-cases (get k m.tasks)) [
    | inl e ↦ rw (e, run_task) v
    | inr (t, e) ↦ rw (e, run_task) (take_command-IsRegistered k t t.queue e)
  ]

pub manager_step-IsRegistered :
    (step : ManagerStep) (m : RoomManager) → IsRegistered m → IsRegistered (manager_step step m)
unfolding manager_step dispatch_join dispatch_ready dispatch_resume dispatch_player_action
manager_step-IsRegistered (call_join request_id connection request) m v =
    let (k, m') = get_or_create_room_sender request.room_id m in
    send_command-IsRegistered m' (get_or_create_room_sender-IsRegistered m v request.room_id) k
      (join request_id connection request) connection request.room_id
manager_step-IsRegistered (call_ready room_id request_id connection request) m v =
    by_sender m v room_id _ _ (reply-IsRegistered m v connection request_id _ _ 0 0)
      (λ k. send_command-IsRegistered m v k _ connection room_id)
manager_step-IsRegistered (call_resume request_id connection request) m v =
    by_sender m v request.room_id _ _ (reply-IsRegistered m v connection request_id _ _ 0 0)
      (λ k. send_command-IsRegistered m v k _ connection request.room_id)
manager_step-IsRegistered (call_player_action request_id connection request) m v =
    by_sender m v request.room_id _ _ (reply-IsRegistered m v connection request_id _ _ _ _)
      (λ k. send_command-IsRegistered m v k _ connection request.room_id)
manager_step-IsRegistered (call_disconnect room_id connection_id) m v =
    disconnect_from-IsRegistered m v room_id connection_id
manager_step-IsRegistered (turn task) m v = run_task-IsRegistered m v task
