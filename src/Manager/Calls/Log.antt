-- ===== src/Manager/Calls/Log.antt =====
-- What is handed to a channel and what its task handles, in one step (src/room.rs: RoomManager,
-- run_room_task).
use gb_mahjong_server_rust.Prelude.{
  ℕ, Bool, ◌≡◌, refl, sym, ◌∙◌, subst, inl, inr, none, some, List, [], ◌∷◌, ◌++◌, append-nil,
  nat_eq, string_eq, Bool-cases, Option-cases, arith, ◌==◌,
}
use gb_mahjong_server_rust.Prelude.Positions.{get_elem?}
use mathlib.Core.Option.{some-injective}
use gb_mahjong_server_rust.HashMap.{get, insert}
use gb_mahjong_server_rust.Room.State.{Room}
use gb_mahjong_server_rust.Room.Action.{
  RoomCommand, join, ready, resume_session, player_action, disconnect, handle_command,
}
use gb_mahjong_server_rust.Manager.{
  RoomTask, RoomManager, get_room_sender, spawn_room, create_room_sender, enqueue, reply,
  send_command, take_command, run_task,
}
use gb_mahjong_server_rust.Manager.Registry.{IsRegistered}
use gb_mahjong_server_rust.Manager.Calls.{
  ManagerCall, to_join, to_ready, to_resume, to_act, to_leave, CallState, looking_up, creating,
  sending, returned, System, Move, go_on, serve, room_of, absent, look_up, create, submit, is_full,
  advance, hangs, serve_task, move,
}
use gb_mahjong_server_rust.Manager.Calls.Changes.{Points}
use gb_mahjong_server_rust.Manager.Calls.History.{
  rested, then_ran, TaskStep, kept, at_task, replaced, spawned,
}

-- The command that a call sends.
abbrev pub command_of : ManagerCall → RoomCommand
command_of (to_join request_id connection request) = join request_id connection request
command_of (to_ready room_id request_id connection request) =
    ready request_id connection.connection_id request
command_of (to_resume request_id connection request) = resume_session request_id connection request
command_of (to_act request_id connection request) =
    player_action request_id connection.connection_id request
command_of (to_leave room_id connection_id) = disconnect connection_id

-- The command that a task handles next.
abbrev pub oldest : List RoomCommand → List RoomCommand
oldest [] = []
oldest (command ∷ queue) = command ∷ []

module _ (k : ℕ) where
  -- What a call hands to channel k in its next step.
  abbrev pub hands : ManagerCall → CallState → List RoomCommand
  hands call (sending j) = at_task k j (command_of call ∷ [])
  hands call _ = []

  -- What a move hands to channel k.
  unfoldable pub handed : Move → System → List RoomCommand
  handed (go_on i) s = elim (get_elem? s.callers i) [ none ↦ [] | some c ↦ hands c.call c.at ]
  handed _ s = []

  -- What task k handles in a move.
  unfoldable pub handled : Move → System → List RoomCommand
  handled (serve j) s = elim (get j s.manager.tasks) [
    | none ↦ []
    | some t ↦ at_task k j (oldest t.queue)
  ]
  handled _ s = []

  -- The same over the moves of a run.
  unfoldable pub all_handed : List Move → System → List RoomCommand
  unfolding handed move
  all_handed [] s = []
  all_handed (x ∷ xs) s = elim (move x s) [ none ↦ [] | some s' ↦ handed x s ++ all_handed xs s' ]

  unfoldable pub all_handled : List Move → System → List RoomCommand
  unfolding handled move
  all_handled [] s = []
  all_handled (x ∷ xs) s = elim (move x s) [
    | none ↦ []
    | some s' ↦ handled x s ++ all_handled xs s'
  ]

nothing_at : (k j : ℕ) → at_task k j [] ≡ []
nothing_at k j = elim (Bool-cases (j == k)) [ inl e ↦ rw e refl | inr e ↦ rw e refl ]

-- What a step leaves of the tasks and of the engine.
abbrev Keeps : RoomManager → RoomManager → Type 0
Keeps m m' = (m'.tasks ≡ m.tasks) × (m'.rule_engine ≡ m.rule_engine)

module _ (m : RoomManager) where
  absent-Keeps : (call : ManagerCall) → Keeps m (absent call m).1
  unfolding absent reply
  absent-Keeps (to_join request_id connection request) = (refl, refl)
  absent-Keeps (to_ready room_id request_id connection request) = (refl, refl)
  absent-Keeps (to_resume request_id connection request) = (refl, refl)
  absent-Keeps (to_act request_id connection request) = (refl, refl)
  absent-Keeps (to_leave room_id connection_id) = (refl, refl)

  look_up-Keeps : (call : ManagerCall) → Keeps m (look_up call m).1
  unfolding look_up
  look_up-Keeps call = elim (Option-cases (get_room_sender (room_of call) m)) [
    | inl e ↦ rw (e, look_up) (absent-Keeps call)
    | inr (j, e) ↦ rw (e, look_up) (refl, refl)
  ]

  -- A call appends its command to the channel of a running task.
  submitted :
      (call : ManagerCall) (j : ℕ) (t : RoomTask)
      → get j m.tasks ≡ some t
      → ((submit call j m).tasks
          ≡ insert j (record t { queue = t.queue ++ command_of call ∷ [] }) m.tasks)
        × ((submit call j m).rule_engine ≡ m.rule_engine)
  unfolding submit send_command enqueue
  submitted (to_join request_id connection request) j t e =
      rw (e, submit, send_command, enqueue) (refl, refl)
  submitted (to_ready room_id request_id connection request) j t e =
      rw (e, submit, send_command, enqueue) (refl, refl)
  submitted (to_resume request_id connection request) j t e =
      rw (e, submit, send_command, enqueue) (refl, refl)
  submitted (to_act request_id connection request) j t e =
      rw (e, submit, send_command, enqueue) (refl, refl)
  submitted (to_leave room_id connection_id) j t e = rw (e, submit, enqueue) (refl, refl)

  module _ (k : ℕ) (v : IsRegistered m) where
    unused : get m.spawned m.tasks ≡ none
    unused = elim (Option-cases (get m.spawned m.tasks)) [
      | inl e ↦ e
      | inr (t, e) ↦ let below = v.numbered m.spawned t e in absurd (omega arith)
    ]

    created : (call : ManagerCall) → TaskStep k m (create call m).1 [] []
    unfolding create create_room_sender spawn_room
    created call = elim (Option-cases (get (room_of call) m.rooms)) [
      | inl e ↦
          rw (e, create, create_room_sender)
            (spawned k m _ m.spawned (room_of call) unused refl refl)
      | inr (j, e) ↦ rw (e, create, create_room_sender) (kept k m m refl refl)
    ]

    pub advanced :
        (call : ManagerCall) (at : CallState) (next : CallState × RoomManager)
        → Points call at m
        → advance call at m ≡ some next
        → TaskStep k m next.1 [] (hands k call at)
    unfolding advance
    advanced call looking_up next p e =
        let (tasks, engine) = look_up-Keeps call in
        subst (λ (x : CallState × RoomManager). TaskStep k m x.1 [] [])
          (some-injective (look_up call m) next e) (kept k m (look_up call m).1 tasks engine)
    advanced call creating next p e =
        subst (λ (x : CallState × RoomManager). TaskStep k m x.1 [] [])
          (some-injective (create call m) next e) (created call)
    advanced call (sending j) next p e = elim (Bool-cases (is_full j m)) [
      | inl full ↦ let stuck : none ≡ some next = sym (rw full refl) ∙ e in cc
      | inr room ↦
          let (t, there, _) = v.running (room_of call) j p in
          let (tasks, engine) = submitted call j t there in
          subst (λ (x : CallState × RoomManager). TaskStep k m x.1 [] (hands k call (sending j)))
            (some-injective (returned, submit call j m) next (sym (rw room refl) ∙ e))
            (subst
              (λ (xs : List RoomCommand).
                TaskStep k m (submit call j m) xs (at_task k j (command_of call ∷ [])))
              (nothing_at k j)
              (replaced k m (submit call j m) j t _ there tasks engine [] (command_of call ∷ [])
                rested refl))
    ]
    advanced call returned next p e = cc

    -- A task takes its oldest command.
    took :
        (j : ℕ) (t : RoomTask) (command : RoomCommand) (queue : List RoomCommand)
        → get j m.tasks ≡ some t
        → t.queue ≡ command ∷ queue
        → TaskStep k m (run_task j m) (at_task k j (command ∷ [])) []
    unfolding run_task take_command
    took j t command queue there e =
        let r : Room = handle_command command (record { state = t.state; world = m.world }) in
        let turn : run_task j m ≡ take_command j t.state (command ∷ queue) m =
          rw (there, run_task, e) refl in
        rw turn (
          subst
            (λ (xs : List RoomCommand).
              TaskStep k m (take_command j t.state (command ∷ queue) m) (at_task k j (command ∷ []))
                xs)
            (nothing_at k j)
            (replaced k m (take_command j t.state (command ∷ queue) m) j t
              (record { state = r.state; queue = queue }) there refl refl (command ∷ []) []
              (then_ran command m.world rested) (append-nil t.queue ∙ e)))

    pub served-TaskStep :
        (answers : ℕ → Bool) (j : ℕ) (m' : RoomManager) (t : RoomTask)
        → get j m.tasks ≡ some t
        → serve_task answers j m ≡ some m'
        → TaskStep k m m' (at_task k j (oldest t.queue)) []
    unfolding serve_task
    served-TaskStep answers j m' t there goes = by_queue t.queue refl
      where
        by_queue :
            (queue : List RoomCommand)
            → t.queue ≡ queue
            → TaskStep k m m' (at_task k j (oldest t.queue)) []
        by_queue [] e =
            let stuck : none ≡ some m' = sym (rw (there, serve_task, e) refl) ∙ goes in cc
        by_queue (command ∷ queue) e = elim (Bool-cases (hangs answers command t m)) [
          | inl waits ↦
              let stuck : none ≡ some m' = sym (rw (there, serve_task, e, waits) refl) ∙ goes in cc
          | inr answered ↦
              let same : run_task j m ≡ m' =
                some-injective _ _ (sym (rw (there, serve_task, e, answered) refl) ∙ goes) in
              rw (← same, e) (took j t command queue there e)
        ]
