-- ===== src/Manager/Calls/Sound.antt =====
-- What holds of the registry, the channels and the callers under every order of their steps
-- (src/room.rs: RoomManager, run_room_task).
use gb_mahjong_server_rust.Prelude.{
  ℕ, suc, Bool, ◌≤◌, ◌≡◌, refl, sym, ◌∙◌, subst, inl, inr, false, none, some, List, [], ◌∷◌, String,
  nat_eq, string_eq, Bool-cases, Option-cases, All, arith,
}
use gb_mahjong_server_rust.Prelude.Positions.{
  get_elem?, set, All-get_elem?, set-All, append-All, map-All,
}
use native.Mathlib.Decide.{ℕ_discrete}
use mathlib.Core.Option.{some-injective}
use gb_mahjong_server_rust.HashMap.{get}
use gb_mahjong_server_rust.Engine.{RuleEngineHandle}
use gb_mahjong_server_rust.World.{World}
use gb_mahjong_server_rust.Room.Action.{RoomCommand}
use gb_mahjong_server_rust.Manager.{
  RoomTask, RoomManager, with_rule_engine, get_room_sender, enqueue, run_task,
}
use gb_mahjong_server_rust.Manager.Registry.{IsRegistered, with_rule_engine-IsRegistered}
use gb_mahjong_server_rust.Manager.Schedule.{
  reply-IsRegistered, create_room_sender-IsRegistered, send_command-IsRegistered,
  enqueued-IsRegistered, run_task-IsRegistered,
}
use gb_mahjong_server_rust.Manager.Calls.{
  ManagerCall, to_join, to_ready, to_resume, to_act, to_leave, CallState, looking_up, creating,
  sending, returned, Caller, System, Move, arrive, go_on, serve, room_of, absent, look_up, create,
  submit, is_full, advance, hangs, serve_task, move, run, room_command_buffer,
}
use gb_mahjong_server_rust.Manager.Calls.Changes.{
  pending, Differs, Opens, Points, submit_lem, not_full, served_one, look_up_lem, create_lem,
}

-- The registry is in order, no channel holds more than it has room for, and each call that waits for
-- room waits at the channel of its room's task.
pub record IsSound (s : System) : Type 0 where
  pub registered : IsRegistered s.manager
  pub bounded : (k : ℕ) → pending k s.manager ≤ room_command_buffer
  pub addressed : All (λ (c : Caller). Points c.call c.at s.manager) s.callers

-- No caller, no room; the rooms that come get the rule engine.
unfoldable pub started : RuleEngineHandle → String → World → System
unfolding with_rule_engine
started rule_engine send_error w = record {
  manager = with_rule_engine rule_engine send_error w;
  callers = [];
  answers = rule_engine.inner.answers;
}

pub started-IsSound :
    (rule_engine : RuleEngineHandle) (send_error : String) (w : World)
    → IsSound (started rule_engine send_error w)
unfolding started pending get
started-IsSound rule_engine send_error w = record {
  registered = with_rule_engine-IsRegistered rule_engine send_error w;
  bounded = λ k. omega arith;
  addressed = tt;
}

Points-keeps :
    (m m' : RoomManager)
    → ((room_id : String) (k : ℕ) → get room_id m.rooms ≡ some k → get room_id m'.rooms ≡ some k)
    → (call : ManagerCall) (at : CallState) → Points call at m
    → Points call at m'
Points-keeps m m' keeps call looking_up p = tt
Points-keeps m m' keeps call creating p = tt
Points-keeps m m' keeps call (sending k) p = keeps (room_of call) k p
Points-keeps m m' keeps call returned p = tt

-- What an opening or a change of one channel leaves sound.
pub record Follows (m m' : RoomManager) : Type 0 where
  pub registered : IsRegistered m'
  pub bounded : (k : ℕ) → pending k m' ≤ room_command_buffer
  pub keeps :
      (room_id : String) (k : ℕ) → get room_id m.rooms ≡ some k → get room_id m'.rooms ≡ some k

module _ (m : RoomManager) (v : IsRegistered m)
    (bounded : (k : ℕ) → pending k m ≤ room_command_buffer) where
  absent-IsRegistered : (call : ManagerCall) → IsRegistered (absent call m).1
  unfolding absent
  absent-IsRegistered (to_join request_id connection request) = v
  absent-IsRegistered (to_ready room_id request_id connection request) =
      reply-IsRegistered m v connection request_id _ _ 0 0
  absent-IsRegistered (to_resume request_id connection request) =
      reply-IsRegistered m v connection request_id _ _ 0 0
  absent-IsRegistered (to_act request_id connection request) =
      reply-IsRegistered m v connection request_id _ _ _ _
  absent-IsRegistered (to_leave room_id connection_id) = v

  look_up-IsRegistered : (call : ManagerCall) → IsRegistered (look_up call m).1
  unfolding look_up
  look_up-IsRegistered call = elim (Option-cases (get_room_sender (room_of call) m)) [
    | inl e ↦ rw (e, look_up) (absent-IsRegistered call)
    | inr (k, e) ↦ rw (e, look_up) v
  ]

  submit-IsRegistered : (call : ManagerCall) (k : ℕ) → IsRegistered (submit call k m)
  unfolding submit enqueue
  submit-IsRegistered (to_join request_id connection request) k =
      send_command-IsRegistered m v k _ connection request.room_id
  submit-IsRegistered (to_ready room_id request_id connection request) k =
      send_command-IsRegistered m v k _ connection room_id
  submit-IsRegistered (to_resume request_id connection request) k =
      send_command-IsRegistered m v k _ connection request.room_id
  submit-IsRegistered (to_act request_id connection request) k =
      send_command-IsRegistered m v k _ connection request.room_id
  submit-IsRegistered (to_leave room_id connection_id) k = elim (Option-cases (get k m.tasks)) [
    | inl e ↦ rw (e, submit, enqueue) v
    | inr (t, e) ↦ rw (e, submit, enqueue) (enqueued-IsRegistered m v k t _ e)
  ]

  opened-Follows : (m' : RoomManager) → IsRegistered m' → Opens m m' → Follows m m'
  opened-Follows m' v' o = record {
    registered = v';
    bounded = λ k. let same = o.lengths k in let small = bounded k in omega arith;
    keeps = o.keeps;
  }

  Differs-Follows :
      (k : ℕ) (m' : RoomManager)
      → IsRegistered m'
      → Differs k m m'
      → pending k m' ≤ room_command_buffer
      → Follows m m'
  Differs-Follows k m' v' d small = record {
    registered = v';
    bounded = λ j. elim (ℕ_discrete k j) [
      | yes same ↦ subst (λ (i : ℕ). pending i m' ≤ room_command_buffer) same small
      | no apart ↦ let same = d.elsewhere j apart in let low = bounded j in omega arith
    ];
    keeps = λ room_id j e. rw d.same_rooms e;
  }

  submit-Follows :
      (call : ManagerCall) (k : ℕ)
      → get (room_of call) m.rooms ≡ some k
      → is_full k m ≡ false
      → Follows m (submit call k m)
  submit-Follows call k points room =
      let (t, there, _) = v.running (room_of call) k points in
      let (d, one_more) = submit_lem m k t there call in
      let low = not_full m k t there room in
      Differs-Follows k (submit call k m) (submit-IsRegistered call k) d (omega arith)

  -- What a caller's step gives.
  abbrev Goes : ManagerCall → CallState × RoomManager → Type 0
  Goes call (at, m') = Follows m m' × Points call at m'

  pub advance-Follows :
      (call : ManagerCall) (at : CallState) (next : CallState × RoomManager)
      → Points call at m
      → advance call at m ≡ some next
      → Goes call next
  unfolding advance create
  advance-Follows call looking_up next p e =
      let (o, points) = look_up_lem m v call in
      subst (Goes call) (some-injective (look_up call m) next e)
        (opened-Follows (look_up call m).1 (look_up-IsRegistered call) o, points)
  advance-Follows call creating next p e =
      let (o, points) = create_lem m v call in
      let v' = create_room_sender-IsRegistered m v (room_of call) in
      subst (Goes call) (some-injective (create call m) next e)
        (opened-Follows (create call m).1 v' o, points)
  advance-Follows call (sending k) next p e = elim (Bool-cases (is_full k m)) [
    | inl full ↦ let stuck : none ≡ some next = sym (rw full refl) ∙ e in cc
    | inr room ↦
        subst (Goes call) (some-injective (returned, submit call k m) next (sym (rw room refl) ∙ e))
          (submit-Follows call k p room, tt)
  ]
  advance-Follows call returned next p e = cc

  -- A task takes a command only if it has one.
  pub served :
      (answers : ℕ → Bool) (k : ℕ) (m' : RoomManager)
      → serve_task answers k m ≡ some m'
      → (t : RoomTask) × (get k m.tasks ≡ some t)
        × (m' ≡ run_task k m)
        × Differs k m m'
        × (pending k m ≡ suc (pending k m'))
  unfolding serve_task
  served answers k m' e = elim (Option-cases (get k m.tasks)) [
    | inl gone ↦ let stuck : none ≡ some m' = sym (rw (gone, serve_task) refl) ∙ e in cc
    | inr (t, there) ↦ by_queue t there t.queue refl
  ]
    where
      by_queue :
          (t : RoomTask)
          → get k m.tasks ≡ some t
          → (queue : List RoomCommand) → t.queue ≡ queue
          → (t : RoomTask) × (get k m.tasks ≡ some t)
            × (m' ≡ run_task k m)
            × Differs k m m'
            × (pending k m ≡ suc (pending k m'))
      by_queue t there [] q =
          let stuck : none ≡ some m' = sym (rw (there, serve_task, q) refl) ∙ e in cc
      by_queue t there (command ∷ queue) q = elim (Bool-cases (hangs answers command t m)) [
        | inl waits ↦
            let stuck : none ≡ some m' = sym (rw (there, serve_task, q, waits) refl) ∙ e in cc
        | inr answered ↦
            let same : run_task k m ≡ m' =
              some-injective _ _ (sym (rw (there, serve_task, q, answered) refl) ∙ e) in
            let (d, n) = served_one m k t there command queue q in
            (t, there, sym same, rw (← same) d, rw (← same) n)
      ]

-- A caller's step, or a task's, keeps all callers at the channels of their rooms.
carried :
    (m m' : RoomManager)
    → Follows m m'
    → (callers : List Caller) → All (λ (c : Caller). Points c.call c.at m) callers
    → All (λ (c : Caller). Points c.call c.at m') callers
carried m m' f callers h = map-All (λ c p. Points-keeps m m' f.keeps c.call c.at p) callers h

pub move-IsSound : (x : Move) (s s' : System) → IsSound s → move x s ≡ some s' → IsSound s'
unfolding move
move-IsSound (arrive call) s s' v e = subst IsSound (some-injective _ s' e) (record {
  registered = v.registered;
  bounded = v.bounded;
  addressed = append-All _ s.callers (record { call = call; at = looking_up }) tt v.addressed;
})
move-IsSound (go_on i) s s' v e = elim (Option-cases (get_elem? s.callers i)) [
  | inl gone ↦ let stuck : none ≡ some s' = sym (rw (gone, move) refl) ∙ e in cc
  | inr (c, here) ↦ elim (Option-cases (advance c.call c.at s.manager)) [
    | inl waits ↦ let stuck : none ≡ some s' = sym (rw (here, move, waits) refl) ∙ e in cc
    | inr ((at, m'), goes) ↦
        let points = All-get_elem? _ s.callers i c here v.addressed in
        let (f, points') =
          advance-Follows s.manager v.registered v.bounded c.call c.at (at, m') points goes in
        let next : System = record s {
          manager = m';
          callers = set s.callers i (record c { at = at });
        } in
        subst IsSound (some-injective next s' (sym (rw (here, move, goes) refl) ∙ e)) (record {
          registered = f.registered;
          bounded = f.bounded;
          addressed =
              set-All _ s.callers i (record c { at = at }) points'
                (carried s.manager m' f s.callers v.addressed);
        })
  ]
]
move-IsSound (serve k) s s' v e = elim (Option-cases (serve_task s.answers k s.manager)) [
  | inl waits ↦ let stuck : none ≡ some s' = sym (rw (waits, move) refl) ∙ e in cc
  | inr (m', goes) ↦
      let (_, _, turn, d, less) = served s.manager v.registered v.bounded s.answers k m' goes in
      let low = v.bounded k in
      let v' : IsRegistered m' = rw turn (run_task-IsRegistered s.manager v.registered k) in
      let f = Differs-Follows s.manager v.registered v.bounded k m' v' d (omega arith) in
      let next : System = record s { manager = m' } in
      subst IsSound (some-injective next s' (sym (rw (goes, move) refl) ∙ e)) (record {
        registered = v';
        bounded = f.bounded;
        addressed = carried s.manager m' f s.callers v.addressed;
      })
]

pub run-IsSound : (xs : List Move) (s s' : System) → IsSound s → run xs s ≡ some s' → IsSound s'
unfolding run
run-IsSound [] s s' v e = subst IsSound (some-injective s s' e) v
run-IsSound (x ∷ xs) s s' v e = elim (Option-cases (move x s)) [
  | inl waits ↦ let stuck : none ≡ some s' = sym (rw (waits, run) refl) ∙ e in cc
  | inr (next, goes) ↦
      run-IsSound xs next s' (move-IsSound x s next v goes) (sym (rw (goes, run) refl) ∙ e)
]
