-- ===== src/Manager/Calls/Progress.antt =====
-- No caller and no task is stuck for good while the rule engine answers (src/room.rs: RoomManager, run_room_task).
use gb_mahjong_server_rust.Prelude.{
  ℕ, Bool, false, zero, suc, ◌≤◌, ◌<◌, ◌≡◌, refl, subst, ◌⊎◌, inl, inr, true, some, List, [], ◌∷◌,
  String, nat_eq, string_eq, All, Bool-cases, Option-cases, arith,
}
use gb_mahjong_server_rust.Prelude.Positions.{get_elem?, set, All-get_elem?}
use native.Mathlib.Decide.{dec_lt, ℕ_discrete}
use gb_mahjong_server_rust.HashMap.{get}
use gb_mahjong_server_rust.Engine.{RuleEngineHandle}
use gb_mahjong_server_rust.World.{World}
use gb_mahjong_server_rust.Room.Action.{RoomCommand}
use gb_mahjong_server_rust.Manager.{RoomTask, RoomManager, run_task}
use gb_mahjong_server_rust.Manager.Registry.{IsRegistered}
use gb_mahjong_server_rust.Manager.Calls.{
  ManagerCall, CallState, looking_up, creating, sending, returned, Caller, System, Move, go_on,
  serve, room_of, look_up, create, submit, is_full, advance, hangs, serve_task, move, run,
}
use gb_mahjong_server_rust.Manager.Calls.Changes.{pending, Points, full}
use gb_mahjong_server_rust.Manager.Calls.Sound.{IsSound, started, move-IsSound}
use gb_mahjong_server_rust.Manager.Calls.Channels.{reached-IsSound}
use gb_mahjong_server_rust.Manager.Calls.Answers.{AnswersAll, move-AnswersAll, run-AnswersAll}
use gb_mahjong_server_rust.Manager.Calls.Work.{work, arrivals, arrivals-cons, move-spends}

-- Every call has returned, and every channel is empty.
abbrev pub IsIdle : System → Type 0
IsIdle s = All (λ (c : Caller). c.at ≡ returned) s.callers × ((k : ℕ) → pending k s.manager ≡ 0)

-- A caller or a task has a step.
abbrev pub Available : System → Type 0
Available s = (x : Move) × (s' : System) × (move x s ≡ some s') × (arrivals (x ∷ []) ≡ 0)

module _ (m : RoomManager) where
  -- A call has returned, or goes on, or its channel is full.
  standing :
      (call : ManagerCall) (at : CallState)
      → (at ≡ returned)
        ⊎ (((next : CallState × RoomManager) × (advance call at m ≡ some next))
            ⊎ ((k : ℕ) × (at ≡ sending k) × (is_full k m ≡ true)))
  unfolding advance
  standing call looking_up = inr (inl (look_up call m, refl))
  standing call creating = inr (inl (create call m, refl))
  standing call (sending k) = elim (Bool-cases (is_full k m)) [
    | inl e ↦ inr (inr (k, refl, e))
    | inr e ↦ inr (inl ((returned, submit call k m), rw e refl))
  ]
  standing call returned = inl refl

  -- A task whose channel is not empty has a turn, if the engine answers.
  has_turn :
      (answers : ℕ → Bool)
      → ((call : ℕ) → answers call ≡ true)
      → (k : ℕ) → 0 < pending k m
      → (m' : RoomManager) × (serve_task answers k m ≡ some m')
  unfolding serve_task pending
  has_turn answers all_answered k some_wait = elim (Option-cases (get k m.tasks)) [
    | inl gone ↦ let nothing : pending k m ≡ 0 = rw (gone, pending) refl in absurd (omega arith)
    | inr (t, there) ↦ by_queue t there t.queue refl
  ]
    where
      by_queue :
          (t : RoomTask)
          → get k m.tasks ≡ some t
          → (queue : List RoomCommand) → t.queue ≡ queue
          → (m' : RoomManager) × (serve_task answers k m ≡ some m')
      by_queue t there [] q =
          let nothing : pending k m ≡ 0 = rw (there, pending, q) refl in absurd (omega arith)
      by_queue t there (command ∷ queue) q =
          let never : hangs answers command t m ≡ false = rw (all_answered m.world.calls) refl in
          (run_task k m, rw (there, serve_task, q, never) refl)

  find_busy : (n : ℕ) → ((k : ℕ) → k < n → pending k m ≡ 0) ⊎ ((k : ℕ) × (0 < pending k m))
  find_busy zero = inl (λ k low. absurd (omega arith))
  find_busy (suc n) = elim (find_busy n) [
    | inr found ↦ inr found
    | inl quiet ↦ elim (dec_lt 0 (pending n m)) [
      | yes busy ↦ inr (n, busy)
      | no idle ↦ inl (λ k low. elim (ℕ_discrete k n) [
        | yes same ↦ rw same (omega arith)
        | no apart ↦ quiet k (omega arith)
      ])
    ]
  ]

  -- A number that no task has stands for no commands.
  unused-quiet : IsRegistered m → (k : ℕ) → m.spawned ≤ k → pending k m ≡ 0
  unfolding pending
  unused-quiet v k high = elim (Option-cases (get k m.tasks)) [
    | inl gone ↦ rw (gone, pending) refl
    | inr (t, there) ↦ let low = v.numbered k t there in absurd (omega arith)
  ]

  -- The first caller that has not returned.
  find_caller :
      (callers : List Caller)
      → All (λ (c : Caller). c.at ≡ returned) callers
        ⊎ ((i : ℕ) × (c : Caller) × (get_elem? callers i ≡ some c)
            × (((next : CallState × RoomManager) × (advance c.call c.at m ≡ some next))
                ⊎ ((k : ℕ) × (c.at ≡ sending k) × (is_full k m ≡ true))))
  find_caller [] = inl tt
  find_caller (c ∷ cs) = elim (standing c.call c.at) [
    | inr open_call ↦ inr (0, c, refl, open_call)
    | inl done ↦ elim (find_caller cs) [
      | inl rest ↦ inl (done, rest)
      | inr (i, d, there, open_call) ↦ inr (suc i, d, there, open_call)
    ]
  ]

module _ (s : System) (v : IsSound s) (h : AnswersAll s) where
  turn_to_take : (k : ℕ) → 0 < pending k s.manager → Available s
  unfolding move
  turn_to_take k busy =
      let (m', goes) = has_turn s.manager s.answers h k busy in
      (serve k, record s { manager = m' }, rw (goes, move) refl, refl)

  -- A full channel has a task with commands.
  full_is_busy :
      (c : Caller) (k : ℕ)
      → Points c.call c.at s.manager
      → c.at ≡ sending k
      → is_full k s.manager ≡ true
      → 0 < pending k s.manager
  full_is_busy c k points at blocked =
      let here = subst (λ (a : CallState). Points c.call a s.manager) at points in
      let (t, there, _) = v.registered.running (room_of c.call) k here in
      let many = full s.manager k t there blocked in omega arith

  all_quiet :
      ((k : ℕ) → k < s.manager.spawned → pending k s.manager ≡ 0)
      → (k : ℕ) → pending k s.manager ≡ 0
  all_quiet low k = elim (dec_lt k s.manager.spawned) [
    | yes below ↦ low k below
    | no above ↦ unused-quiet s.manager v.registered k (omega arith)
  ]

  -- All is done, or a caller or a task has a step.
  pub next_step : IsIdle s ⊎ Available s
  unfolding move
  next_step = elim (find_caller s.manager s.callers) [
    | inr (i, c, here, inl ((at, m'), goes)) ↦ inr (
      go_on i,
      record s { manager = m'; callers = set s.callers i (record c { at = at }) },
      rw (here, move, goes) refl,
      refl,
    )
    | inr (i, c, here, inr (k, at, blocked)) ↦
        let points = All-get_elem? _ s.callers i c here v.addressed in
        inr (turn_to_take k (full_is_busy c k points at blocked))
    | inl done ↦ elim (find_busy s.manager s.manager.spawned) [
      | inr (k, busy) ↦ inr (turn_to_take k busy)
      | inl quiet ↦ inl (done, all_quiet quiet)
    ]
  ]

-- A run to the end, on fuel that the work bounds.
finish :
    (fuel : ℕ) (s : System)
    → IsSound s
    → AnswersAll s
    → work s ≤ fuel
    → (xs : List Move) × (s' : System) × (run xs s ≡ some s') × (arrivals xs ≡ 0) × IsIdle s'
unfolding run
finish zero s v h enough = elim (next_step s v h) [
  | inl idle ↦ ([], s, refl, refl, idle)
  | inr (x, s', goes, quiet) ↦ let less = move-spends x s s' v goes in absurd (omega arith)
]
finish (suc fuel) s v h enough = elim (next_step s v h) [
  | inl idle ↦ ([], s, refl, refl, idle)
  | inr (x, s', goes, quiet) ↦
      let less = move-spends x s s' v goes in
      let (xs, t, ends, no_calls, idle) =
        finish fuel s' (move-IsSound x s s' v goes) (move-AnswersAll x s s' h goes) (omega arith) in
      (x ∷ xs, t, rw (goes, run) ends, omega (arith, arrivals-cons x xs), idle)
]

module _ (rule_engine : RuleEngineHandle) (send_error : String) (w : World) (xs : List Move)
    (s : System) (reached : run xs (started rule_engine send_error w) ≡ some s) where
  sound : IsSound s
  sound = reached-IsSound rule_engine send_error w xs s reached

  -- If the rule engine answers every call: from the start, in every order of the steps, unless every
  -- call of a method has returned and every channel is empty, a caller can go on or a task can take its
  -- turn. Also where callers wait at full channels, there are then moves, without a further call of a
  -- method, after which every call has returned and every channel is empty.
  pub run-completes :
      ((call : ℕ) → rule_engine.inner.answers call ≡ true)
      → (IsIdle s ⊎ Available s)
        × (ys : List Move) × (s' : System) × (run ys s ≡ some s')
        × (arrivals ys ≡ 0)
        × IsIdle s'
  unfolding started
  run-completes all_answered =
      let h = run-AnswersAll xs (started rule_engine send_error w) s all_answered reached in
      let (ys, s', ends, quiet, idle) = finish (work s) s sound h (omega arith) in
      (next_step s sound h, ys, s', ends, quiet, idle)
