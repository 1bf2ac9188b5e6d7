-- ===== src/Ws/Closing.antt =====
-- What a closed socket leads to in the room (src/ws.rs: handle_socket; src/room.rs:
-- RoomManager::disconnect, run_room_task, handle_disconnect).
use gb_mahjong_server_rust.Prelude.{
  ℕ, ◌≡◌, refl, sym, ◌∙◌, ap, subst, ◌⊎◌, inl, inr, none, some, List, [], ◌∷◌, ◌++◌, String, nat_eq,
  string_eq, length, length-append, ◌+◌,
}
use gb_mahjong_server_rust.HashMap.{get, insert}
use gb_mahjong_server_rust.HashMap.Laws.{get-insert_same}
use gb_mahjong_server_rust.Proto.Client.{Seat, seat_eq}
use gb_mahjong_server_rust.Room.State.{Room, PlayerSlot}
use gb_mahjong_server_rust.Room.Reconnect.{handle_disconnect}
use gb_mahjong_server_rust.Room.Action.{RoomCommand, disconnect, handle_command, run_room_task}
use gb_mahjong_server_rust.Room.Invariant.{IsWellFormed}
use gb_mahjong_server_rust.Room.Invariant.Run.{run_room_task-keeps-IsWellFormed}
use gb_mahjong_server_rust.Room.Connection.Away.{IsAway, handle_disconnect-outcome}
use gb_mahjong_server_rust.Manager.{RoomTask, RoomManager}
use gb_mahjong_server_rust.Manager.Registry.{IsRegistered}
use gb_mahjong_server_rust.Manager.Drain.{IsDrained, turns, turns-IsDrained, disconnect_from-listed}
use gb_mahjong_server_rust.App.{AppState}
use gb_mahjong_server_rust.Ws.Socket.{SocketTask, close_socket}

run_room_task-snoc :
    (commands : List RoomCommand) (command : RoomCommand) (r : Room)
    → run_room_task (commands ++ command ∷ []) r ≡ handle_command command (run_room_task commands r)
unfolding run_room_task
run_room_task-snoc [] command r = refl
run_room_task-snoc (c ∷ commands) command r =
    run_room_task-snoc commands command (handle_command c r)

module _ (task : SocketTask) (app : AppState) (room_id : String) (k : ℕ) (t : RoomTask)
    (entered : task.session.current_room_id ≡ some room_id)
    (listed : get room_id app.room_manager.rooms ≡ some k)
    (runs : get k app.room_manager.tasks ≡ some t) where
  abbrev last_command : RoomCommand
  last_command = disconnect task.session.connection_id

  abbrev informed : RoomTask
  informed = record t { queue = t.queue ++ last_command ∷ [] }

  abbrev told : RoomManager
  told = record app.room_manager { tasks = insert k informed app.room_manager.tasks }

  -- The room as the commands before the disconnect leave it.
  abbrev pub worked_off : Room
  worked_off = run_room_task t.queue (record { state = t.state; world = app.room_manager.world })

  close_socket-told : close_socket task app ≡ record app { room_manager = told }
  unfolding close_socket
  close_socket-told =
      let sent =
        disconnect_from-listed room_id task.session.connection_id k t app.room_manager listed
          runs in
      rw (entered, close_socket) (ap (λ (m : RoomManager). record app { room_manager = m }) sent)

  drained :
      IsDrained k told
        (handle_disconnect task.session.connection_id worked_off)
        (turns (length t.queue + 1) k told)
  unfolding handle_command
  drained =
      let here = get-insert_same k informed app.room_manager.tasks in
      let count : length informed.queue ≡ length t.queue + 1 =
        length-append t.queue (last_command ∷ []) in
      let r : Room = record { state = t.state; world = app.room_manager.world } in
      subst
        (λ (n : ℕ).
          IsDrained k told (handle_disconnect task.session.connection_id worked_off)
            (turns n k told))
        count
        (subst (λ (q : Room). IsDrained k told q (turns (length informed.queue) k told))
          (run_room_task-snoc t.queue last_command r) (turns-IsDrained k informed told here))

  -- What the disconnect makes of the room as the commands before it leave it.
  abbrev pub Departs : Room → Type 0
  Departs r' =
      (get task.session.connection_id r'.state.connection_to_user ≡ none)
      × (((get task.session.connection_id worked_off.state.connection_to_user ≡ none)
            × (r' ≡ worked_off))
          ⊎ ((seat : Seat) × (player : PlayerSlot) × (get seat worked_off.state.players_by_seat
                ≡ some player)
              × IsAway task.session.connection_id seat player worked_off r'))

  departs :
      IsWellFormed worked_off.state
      → Departs (handle_disconnect task.session.connection_id worked_off)
  departs v = elim (handle_disconnect-outcome task.session.connection_id worked_off v) [
    | inl (unknown, same) ↦ (
      ap (λ (r : Room). get task.session.connection_id r.state.connection_to_user) same ∙ unknown,
      inl (unknown, same),
    )
    | inr (_, seat, player, _, _, there, away) ↦ (away.1, inr (seat, player, there, away))
  ]

  -- A socket that ends while its connection's last room is listed: when the room's task has had a turn for
  -- each command that waited in its channel and one more, the channel is empty and the room does not
  -- know the connection any more. If it knew it after these commands, then its player is away and
  -- keeps the seat; if not, the room is as these commands left it.
  pub close_socket-Departs :
      IsRegistered app.room_manager
      → (r' : Room) × IsDrained k app.room_manager r'
          (turns (length t.queue + 1) k (close_socket task app).room_manager)
        × Departs r'
  close_socket-Departs v =
      let start : Room = record { state = t.state; world = app.room_manager.world } in
      let kept = run_room_task-keeps-IsWellFormed t.queue start (v.well_formed k t runs) in
      let closed =
        ap (λ (a : AppState). turns (length t.queue + 1) k a.room_manager) close_socket-told in
      (
        handle_disconnect task.session.connection_id worked_off,
        subst
            (λ (m : RoomManager).
              IsDrained k app.room_manager (handle_disconnect task.session.connection_id worked_off)
                m)
            (sym closed) drained,
        departs kept,
      )
