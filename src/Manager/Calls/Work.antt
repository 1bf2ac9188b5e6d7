-- ===== src/Manager/Calls/Work.antt =====
-- Every order of the steps of callers and tasks comes to an end (src/room.rs: RoomManager,
-- run_room_task).
use gb_mahjong_server_rust.Prelude.{
  ℕ, zero, suc, ◌+◌, ◌≤◌, ◌<◌, ◌≡◌, ◌≢◌, refl, sym, ◌∙◌, subst, inl, inr, none, some, List, String,
  [], ◌∷◌, ◌++◌, ◌*◌, nat_eq, string_eq, length, Bool-cases, Option-cases, arith,
}
use gb_mahjong_server_rust.Prelude.Positions.{get_elem?, set, All-get_elem?, sum_of, sum_of-set}
use native.Mathlib.Decide.{ℕ_discrete}
use mathlib.Core.Option.{some-injective}
use gb_mahjong_server_rust.Engine.{RuleEngineHandle}
use gb_mahjong_server_rust.World.{World}
use gb_mahjong_server_rust.Manager.{RoomManager, with_rule_engine, get_room_sender}
use gb_mahjong_server_rust.Manager.Registry.{IsRegistered}
use gb_mahjong_server_rust.Manager.Calls.{
  ManagerCall, to_join, to_ready, to_resume, to_act, to_leave, CallState, looking_up, creating,
  sending, returned, Caller, System, Move, arrive, go_on, serve, room_of, absent, look_up, create,
  submit, is_full, advance, serve_task, move, run,
}
use gb_mahjong_server_rust.Manager.Calls.Changes.{
  pending, Differs, Opens, Points, submit_lem, look_up_lem, create_lem,
}
use gb_mahjong_server_rust.Manager.Calls.Sound.{
  IsSound, started, started-IsSound, served, move-IsSound,
}

-- The sum of a family over the first numbers.
unfoldable pub total : ℕ → (ℕ → ℕ) → ℕ
total zero f = 0
total (suc n) f = total n f + f n

pub total-eq : (n : ℕ) (f g : ℕ → ℕ) → ((i : ℕ) → i < n → g i ≡ f i) → total n g ≡ total n f
unfolding total
total-eq zero f g h = refl
total-eq (suc n) f g h =
    omega (arith, h n (omega arith), total-eq n f g (λ i low. h i (omega arith)))

-- Families that differ at one place.
pub total-differs :
    (n : ℕ) (f g : ℕ → ℕ) (k : ℕ)
    → k < n
    → ((i : ℕ) → k ≢ i → g i ≡ f i)
    → total n g + f k ≡ total n f + g k
unfolding total
total-differs zero f g k low h = absurd (omega arith)
total-differs (suc n) f g k low h = elim (ℕ_discrete k n) [
  | yes last ↦
      let rest = total-eq n f g (λ i below. h i (λ same. omega arith)) in
      subst (λ (j : ℕ). total n g + g n + f j ≡ total n f + f n + g j) (sym last) (omega arith)
  | no apart ↦ omega (arith, h n apart, total-differs n f g k (omega arith) h)
]

-- The commands that wait in all channels.
abbrev pub queued : RoomManager → ℕ
queued m = total m.spawned (λ k. pending k m)

-- How far a call is from its end; the command that it sends has to be handled, too.
abbrev pub to_go : CallState → ℕ
to_go looking_up = 4
to_go creating = 3
to_go (sending sender) = 2
to_go returned = 0

abbrev pub work : System → ℕ
work s = sum_of (λ (c : Caller). to_go c.at) s.callers + queued s.manager

module _ (m : RoomManager) (v : IsRegistered m) where
  opened-queued : (m' : RoomManager) → Opens m m' → queued m' ≡ queued m
  unfolding total
  opened-queued m' o = elim (ℕ_discrete m'.spawned m.spawned) [
    | yes same ↦
        subst (λ (n : ℕ). total n (λ k. pending k m') ≡ queued m) (sym same)
          (total-eq m.spawned _ _ (λ k low. o.lengths k))
    | no grown ↦
        let one : m'.spawned ≡ suc m.spawned =
          let low = o.more in let high = o.at_most_one in omega arith in
        subst (λ (n : ℕ). total n (λ k. pending k m') ≡ queued m) (sym one)
          (let rest =
              total-eq m.spawned (λ k. pending k m) (λ k. pending k m') (λ k low. o.lengths k) in
            omega (arith, o.lengths m.spawned, o.unused))
  ]

  queued-Differs :
      (k : ℕ) (m' : RoomManager)
      → k < m.spawned
      → Differs k m m'
      → queued m' + pending k m ≡ queued m + pending k m'
  queued-Differs k m' low d =
      subst (λ (n : ℕ). total n (λ j. pending j m') + pending k m ≡ queued m + pending k m')
        (sym d.same_spawned)
        (total-differs m.spawned (λ j. pending j m) (λ j. pending j m') k low d.elsewhere)

  absent-nearer : (call : ManagerCall) → to_go (absent call m).0 < 4
  unfolding absent
  absent-nearer (to_join request_id connection request) = omega arith
  absent-nearer (to_ready room_id request_id connection request) = omega arith
  absent-nearer (to_resume request_id connection request) = omega arith
  absent-nearer (to_act request_id connection request) = omega arith
  absent-nearer (to_leave room_id connection_id) = omega arith

  look_up-nearer : (call : ManagerCall) → to_go (look_up call m).0 < 4
  unfolding look_up
  look_up-nearer call = elim (Option-cases (get_room_sender (room_of call) m)) [
    | inl e ↦ rw (e, look_up) (absent-nearer call)
    | inr (k, e) ↦ rw (e, look_up) (omega arith)
  ]

  abbrev Spends : ManagerCall → CallState → CallState × RoomManager → Type 0
  Spends call at (at', m') = to_go at' + queued m' < to_go at + queued m

  advance-Spends :
      (call : ManagerCall) (at : CallState) (next : CallState × RoomManager)
      → Points call at m
      → advance call at m ≡ some next
      → Spends call at next
  unfolding advance create
  advance-Spends call looking_up next p e =
      subst (Spends call looking_up) (some-injective (look_up call m) next e) (
        omega
          (arith, look_up-nearer call, opened-queued (look_up call m).1 (look_up_lem m v call).0))
  advance-Spends call creating next p e =
      subst (Spends call creating) (some-injective (create call m) next e)
        (omega (arith, opened-queued (create call m).1 (create_lem m v call).0))
  advance-Spends call (sending k) next p e = elim (Bool-cases (is_full k m)) [
    | inl full ↦ let stuck : none ≡ some next = sym (rw full refl) ∙ e in cc
    | inr room ↦
        let (t, there, _) = v.running (room_of call) k p in
        let (d, one_more) = submit_lem m k t there call in
        subst (Spends call (sending k))
          (some-injective (returned, submit call k m) next (sym (rw room refl) ∙ e))
          (omega (arith, queued-Differs k (submit call k m) (v.numbered k t there) d))
  ]
  advance-Spends call returned next p e = cc

-- The methods that are called.
abbrev pub arrivals : List Move → ℕ
arrivals [] = 0
arrivals (arrive call ∷ xs) = suc (arrivals xs)
arrivals (_ ∷ xs) = arrivals xs

sum_of-arrived :
    (callers : List Caller) (call : ManagerCall)
    → sum_of
        (λ (c : Caller). to_go c.at)
        (callers ++ (record { call = call; at = looking_up }) ∷ [])
      ≡ sum_of (λ (c : Caller). to_go c.at) callers + 4
sum_of-arrived [] call = omega arith
sum_of-arrived (c ∷ cs) call = omega (arith, sum_of-arrived cs call)

-- A step of a caller or of a task brings the end nearer; a call costs five steps at most.
pub move-spends :
    (x : Move) (s s' : System)
    → IsSound s
    → move x s ≡ some s'
    → work s' + 1 ≤ work s + 5 * arrivals (x ∷ [])
unfolding move
move-spends (arrive call) s s' v e =
    subst (λ (t : System). work t + 1 ≤ work s + 5 * arrivals (arrive call ∷ []))
      (some-injective _ s' e) (omega (arith, sum_of-arrived s.callers call))
move-spends (go_on i) s s' v e = elim (Option-cases (get_elem? s.callers i)) [
  | inl gone ↦ let stuck : none ≡ some s' = sym (rw (gone, move) refl) ∙ e in cc
  | inr (c, here) ↦ elim (Option-cases (advance c.call c.at s.manager)) [
    | inl waits ↦ let stuck : none ≡ some s' = sym (rw (here, move, waits) refl) ∙ e in cc
    | inr ((at, m'), goes) ↦
        let points = All-get_elem? _ s.callers i c here v.addressed in
        let less = advance-Spends s.manager v.registered c.call c.at (at, m') points goes in
        let c' : Caller = record c { at = at } in
        let next : System = record s { manager = m'; callers = set s.callers i c' } in
        subst (λ (t : System). work t + 1 ≤ work s + 5 * arrivals (go_on i ∷ []))
          (some-injective next s' (sym (rw (here, move, goes) refl) ∙ e))
          (omega (arith, sum_of-set (λ (c : Caller). to_go c.at) s.callers i c c' here))
  ]
]
move-spends (serve k) s s' v e = elim (Option-cases (serve_task s.answers k s.manager)) [
  | inl waits ↦ let stuck : none ≡ some s' = sym (rw (waits, move) refl) ∙ e in cc
  | inr (m', goes) ↦
      let (t, there, _, d, less) = served s.manager v.registered v.bounded s.answers k m' goes in
      let low = v.registered.numbered k t there in
      let next : System = record s { manager = m' } in
      let drop = queued-Differs s.manager v.registered k m' low d in
      subst (λ (t : System). work t + 1 ≤ work s + 5 * arrivals (serve k ∷ []))
        (some-injective next s' (sym (rw (goes, move) refl) ∙ e)) (omega arith)
]

pub arrivals-cons :
    (x : Move) (xs : List Move) → arrivals (x ∷ xs) ≡ arrivals (x ∷ []) + arrivals xs
arrivals-cons (arrive call) xs = omega arith
arrivals-cons (go_on i) xs = omega arith
arrivals-cons (serve k) xs = omega arith

pub run-spends :
    (xs : List Move) (s s' : System)
    → IsSound s
    → run xs s ≡ some s'
    → length xs + work s' ≤ work s + 5 * arrivals xs
unfolding run
run-spends [] s s' v e =
    subst (λ (t : System). 0 + work t ≤ work s + 0) (some-injective s s' e) (omega arith)
run-spends (x ∷ xs) s s' v e = elim (Option-cases (move x s)) [
  | inl waits ↦ let stuck : none ≡ some s' = sym (rw (waits, run) refl) ∙ e in cc
  | inr (next, goes) ↦
      let v' = move-IsSound x s next v goes in
      let rest = run-spends xs next s' v' (sym (rw (goes, run) refl) ∙ e) in
      let first = move-spends x s next v goes in omega (arith, arrivals-cons x xs)
]

-- A run from the start in which the methods are called n times has at most 5 n moves: the calls
-- themselves, their steps, and the turns in which the tasks handle the commands. So no order of the
-- steps goes on for ever.
pub run-ends :
    (rule_engine : RuleEngineHandle) (send_error : String) (w : World) (xs : List Move) (s : System)
    → run xs (started rule_engine send_error w) ≡ some s
    → length xs ≤ 5 * arrivals xs
unfolding started total with_rule_engine
run-ends rule_engine send_error w xs s reached =
    let start = started-IsSound rule_engine send_error w in
    let spent = run-spends xs (started rule_engine send_error w) s start reached in omega arith
