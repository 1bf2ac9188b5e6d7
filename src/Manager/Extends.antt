-- ===== src/Manager/Extends.antt =====
-- The rooms' manager only adds to what was sent (src/room.rs: RoomManager).
use gb_mahjong_server_rust.Prelude.{
  ℕ, refl, inl, inr, none, some, List, [], ◌∷◌, String, nat_eq, string_eq, Option-cases,
}
use gb_mahjong_server_rust.HashMap.{get}
use gb_mahjong_server_rust.Proto.Client.{RejectCode}
use gb_mahjong_server_rust.World.{ConnectionHandle, send, send_frame}
use gb_mahjong_server_rust.Room.State.{RoomState}
use gb_mahjong_server_rust.Room.Extends.{
  Extends, Extends-refl, Extends-trans, handle_command-Extends,
}
use gb_mahjong_server_rust.Room.Action.{RoomCommand, join, disconnect}
use gb_mahjong_server_rust.Manager.{
  RoomManager, get_room_sender, spawn_room, create_room_sender, get_or_create_room_sender, enqueue,
  reply, send_command, dispatch_join, dispatch_ready, dispatch_resume, dispatch_player_action,
  disconnect_from, take_command, run_task,
}
use gb_mahjong_server_rust.Manager.Schedule.{
  ManagerStep, call_join, call_ready, call_resume, call_player_action, call_disconnect, turn,
  manager_step,
}

module _ (m : RoomManager) where
  abbrev Adds : RoomManager → Type 0
  Adds m' = Extends m.world.sent m'.world.sent

  reply-Extends :
      (connection : ConnectionHandle) (request_id : String) (reject_code : RejectCode)
      (message : String) (expected window : ℕ)
      → Adds (reply connection request_id reject_code message expected window m)
  unfolding reply send_frame send
  reply-Extends connection request_id reject_code message expected window = (_, refl)

  send_command-Extends :
      (k : ℕ) (command : RoomCommand) (connection : ConnectionHandle) (room_id : String)
      → Adds (send_command k command connection room_id m)
  unfolding send_command enqueue
  send_command-Extends k command connection room_id = elim (Option-cases (get k m.tasks)) [
    | inl e ↦ rw (e, send_command, enqueue) (reply-Extends connection "" _ _ 0 0)
    | inr (t, e) ↦ rw (e, send_command, enqueue) (Extends-refl m.world.sent)
  ]

module _ (m : RoomManager) where
  create_room_sender-Extends : (room_id : String) → Adds m (create_room_sender room_id m).1
  unfolding create_room_sender spawn_room
  create_room_sender-Extends room_id = elim (Option-cases (get room_id m.rooms)) [
    | inl e ↦ rw (e, create_room_sender) (Extends-refl m.world.sent)
    | inr (k, e) ↦ rw (e, create_room_sender) (Extends-refl m.world.sent)
  ]

  get_or_create_room_sender-Extends :
      (room_id : String) → Adds m (get_or_create_room_sender room_id m).1
  unfolding get_or_create_room_sender
  get_or_create_room_sender-Extends room_id = elim (Option-cases (get_room_sender room_id m)) [
    | inl e ↦ rw (e, get_or_create_room_sender) (create_room_sender-Extends room_id)
    | inr (k, e) ↦ rw (e, get_or_create_room_sender) (Extends-refl m.world.sent)
  ]

  -- A call that needs the room's sender.
  by_sender :
      (room_id : String) (lost : RoomManager) (found : ℕ → RoomManager)
      → Adds m lost
      → ((k : ℕ) → Adds m (found k))
      → Adds m (elim (get_room_sender room_id m) [ none ↦ lost | some k ↦ found k ])
  by_sender room_id lost found h g = elim (Option-cases (get_room_sender room_id m)) [
    | inl e ↦ rw e h
    | inr (k, e) ↦ rw e (g k)
  ]

  take_command-Extends :
      (k : ℕ) (state : RoomState) (queue : List RoomCommand) → Adds m (take_command k state queue m)
  unfolding take_command
  take_command-Extends k state [] = Extends-refl m.world.sent
  take_command-Extends k state (command ∷ queue) =
      handle_command-Extends (record { state = state; world = m.world }) command

  enqueue-Extends :
      (k : ℕ) (command : RoomCommand)
      → Adds m (elim (enqueue k command m) [ none ↦ m | some m' ↦ m' ])
  unfolding enqueue
  enqueue-Extends k command = elim (Option-cases (get k m.tasks)) [
    | inl e ↦ rw (e, enqueue) (Extends-refl m.world.sent)
    | inr (t, e) ↦ rw (e, enqueue) (Extends-refl m.world.sent)
  ]

  -- Whatever call the manager answers and whichever task has its turn, the frames that were sent before
  -- are still there, in their order, with any new ones behind them.
  pub manager_step-Extends : (step : ManagerStep) → Adds m (manager_step step m)
  unfolding manager_step dispatch_join dispatch_ready dispatch_resume dispatch_player_action
      disconnect_from run_task
  manager_step-Extends (call_join request_id connection request) =
      let (k, m') = get_or_create_room_sender request.room_id m in
      Extends-trans m.world.sent (get_or_create_room_sender-Extends request.room_id)
        (send_command-Extends m' k (join request_id connection request) connection request.room_id)
  manager_step-Extends (call_ready room_id request_id connection request) =
      by_sender room_id _ _ (reply-Extends m connection request_id _ _ 0 0)
        (λ k. send_command-Extends m k _ connection room_id)
  manager_step-Extends (call_resume request_id connection request) =
      by_sender request.room_id _ _ (reply-Extends m connection request_id _ _ 0 0)
        (λ k. send_command-Extends m k _ connection request.room_id)
  manager_step-Extends (call_player_action request_id connection request) =
      by_sender request.room_id _ _ (reply-Extends m connection request_id _ _ _ _)
        (λ k. send_command-Extends m k _ connection request.room_id)
  manager_step-Extends (call_disconnect room_id connection_id) =
      by_sender room_id _ _ (Extends-refl m.world.sent)
        (λ k. enqueue-Extends k (disconnect connection_id))
  manager_step-Extends (turn task) = elim (Option-cases (get task m.tasks)) [
    | inl e ↦ rw (e, manager_step, run_task) (Extends-refl m.world.sent)
    | inr (t, e) ↦ rw (e, manager_step, run_task) (take_command-Extends task t.state t.queue)
  ]
