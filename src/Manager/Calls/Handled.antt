-- ===== src/Manager/Calls/Handled.antt =====
-- Every room is the work of the commands that were sent to it, each handled once and in the order in
-- which they were sent (src/room.rs: RoomManager, run_room_task).
use gb_mahjong_server_rust.Prelude.{
  ℕ, ◌≡◌, refl, sym, ◌∙◌, subst, inl, inr, none, some, List, [], ◌∷◌, ◌++◌, nat_eq, string_eq,
  Option-cases, String,
}
use gb_mahjong_server_rust.Prelude.Positions.{get_elem?, set, All-get_elem?}
use mathlib.Core.Option.{some-injective}
use gb_mahjong_server_rust.HashMap.{get}
use gb_mahjong_server_rust.Engine.{RuleEngineHandle}
use gb_mahjong_server_rust.World.{World}
use gb_mahjong_server_rust.Room.State.{RoomState, new}
use gb_mahjong_server_rust.Room.Identity.{room_id-handle_command}
use gb_mahjong_server_rust.Room.Action.{RoomCommand}
use gb_mahjong_server_rust.Manager.{RoomTask, with_rule_engine}
use gb_mahjong_server_rust.Manager.Calls.{
  System, Move, arrive, go_on, serve, advance, serve_task, move, run,
}
use gb_mahjong_server_rust.Manager.Calls.Sound.{
  IsSound, started, started-IsSound, served, move-IsSound,
}
use gb_mahjong_server_rust.Manager.Calls.Log.{
  handed, handled, all_handed, all_handled, advanced, served-TaskStep,
}
use gb_mahjong_server_rust.Manager.Calls.History.{
  Ran, rested, then_ran, TaskStep, Past, was, fresh, kept, in_turn,
}

module _ (k : ℕ) where
  move-TaskStep :
      (x : Move) (s s' : System)
      → IsSound s
      → move x s ≡ some s'
      → TaskStep k s.manager s'.manager (handled k x s) (handed k x s)
  unfolding move handled handed
  move-TaskStep (arrive call) s s' v e =
      subst (λ (t : System). TaskStep k s.manager t.manager [] []) (some-injective _ s' e)
        (kept k s.manager s.manager refl refl)
  move-TaskStep (go_on i) s s' v e = elim (Option-cases (get_elem? s.callers i)) [
    | inl gone ↦ let stuck : none ≡ some s' = sym (rw (gone, move) refl) ∙ e in cc
    | inr (c, here) ↦ elim (Option-cases (advance c.call c.at s.manager)) [
      | inl waits ↦ let stuck : none ≡ some s' = sym (rw (here, move, waits) refl) ∙ e in cc
      | inr ((at, m'), goes) ↦
          let next : System = record s {
            manager = m';
            callers = set s.callers i (record c { at = at });
          } in
          let points = All-get_elem? _ s.callers i c here v.addressed in
          let step = advanced s.manager k v.registered c.call c.at (at, m') points goes in
          subst (λ (t : System). TaskStep k s.manager t.manager [] (handed k (go_on i) s))
            (some-injective next s' (sym (rw (here, move, goes) refl) ∙ e)) (rw (here, handed) step)
    ]
  ]
  move-TaskStep (serve j) s s' v e = elim (Option-cases (serve_task s.answers j s.manager)) [
    | inl waits ↦ let stuck : none ≡ some s' = sym (rw (waits, move) refl) ∙ e in cc
    | inr (m', goes) ↦
        let (t, there, _, _, _) = served s.manager v.registered v.bounded s.answers j m' goes in
        let next : System = record s { manager = m' } in
        subst (λ (u : System). TaskStep k s.manager u.manager (handled k (serve j) s) [])
          (some-injective next s' (sym (rw (goes, move) refl) ∙ e))
          (rw (there, handled)
            (served-TaskStep s.manager k v.registered s.answers j m' t there goes))
  ]

  run-TaskStep :
      (xs : List Move) (s s' : System)
      → IsSound s
      → run xs s ≡ some s'
      → TaskStep k s.manager s'.manager (all_handled k xs s) (all_handed k xs s)
  unfolding run all_handled all_handed
  run-TaskStep [] s s' v e =
      subst (λ (t : System). TaskStep k s.manager t.manager [] []) (some-injective s s' e)
        (kept k s.manager s.manager refl refl)
  run-TaskStep (x ∷ xs) s s' v e = elim (Option-cases (move x s)) [
    | inl waits ↦ let stuck : none ≡ some s' = sym (rw (waits, run) refl) ∙ e in cc
    | inr (next, goes) ↦
        rw (goes, all_handled, all_handed)
          (in_turn k s.manager next.manager s'.manager (handled k x s) (handed k x s)
            (all_handled k xs next) (all_handed k xs next) (move-TaskStep x s next v goes)
            (run-TaskStep xs next s' (move-IsSound x s next v goes)
              (sym (rw (goes, run) refl) ∙ e)))
  ]

Ran-room_id :
    {s t : RoomState} {commands : List RoomCommand} → Ran s commands t → t.room_id ≡ s.room_id
Ran-room_id rested = refl
Ran-room_id {s} (then_ran command w p) =
    Ran-room_id p ∙ room_id-handle_command (record { state = s; world = w }) command

module _ (rule_engine : RuleEngineHandle) (send_error : String) (w : World) (k : ℕ) where
  abbrev pub start : System
  start = started rule_engine send_error w

  -- A task that is there after the start was spawned since.
  spawned_since :
      (t₀ t : RoomTask) (commands handed : List RoomCommand)
      → Past k start.manager t₀
      → Ran t₀.state commands t.state
      → t₀.queue ++ handed ≡ commands ++ t.queue
      → Ran (new t.state.room_id rule_engine) commands t.state × (handed ≡ commands ++ t.queue)
  unfolding started with_rule_engine get new
  spawned_since t₀ t commands handed (was there) ran lined = cc
  spawned_since t₀ t commands handed (fresh room_id gone) ran lined =
      let named : t.state.room_id ≡ room_id = Ran-room_id ran in
      (subst (λ (r : String). Ran (new r rule_engine) commands t.state) (sym named) ran, lined)

  -- From the start, in every order of the calls, of their steps and of the tasks' turns: the state of
  -- a room's task is that of a new room of its id after one handle_command for each command that the
  -- task has handled, and nothing else; and what the calls have handed to its channel is what it has
  -- handled followed by what waits in the channel, so that no command is lost, repeated or overtaken.
  pub task-Ran :
      (xs : List Move) (s : System) (t : RoomTask)
      → run xs start ≡ some s
      → get k s.manager.tasks ≡ some t
      → Ran (new t.state.room_id rule_engine) (all_handled k xs start) t.state
        × (all_handed k xs start ≡ all_handled k xs start ++ t.queue)
  task-Ran xs s t reached there =
      let step = run-TaskStep k xs start s (started-IsSound rule_engine send_error w) reached in
      let (t₀, past, ran, lined) = step.before t there in spawned_since t₀ t _ _ past ran lined
