-- ===== src/Manager/Calls/History.antt =====
-- What a step does to the task of a number: which command it is handed, which it handles, and what
-- becomes of its room and of its channel (src/room.rs: RoomManager, run_room_task).
use gb_mahjong_server_rust.Prelude.{
  ℕ, ◌≡◌, refl, sym, ap, ◌∙◌, subst, inl, inr, true, false, none, some, List, [], ◌∷◌, ◌++◌,
  append_assoc, append-nil, nat_eq, string_eq, ◌==◌, eq_iff, if◌then◌else◌, Bool-cases, arith,
  String,
}
use mathlib.Core.Path.{◌≡⟨◌⟩◌, ◌∎}
use gb_mahjong_server_rust.HashMap.{get, insert}
use gb_mahjong_server_rust.HashMap.Laws.{get-insert, insert_cases}
use gb_mahjong_server_rust.World.{World}
use gb_mahjong_server_rust.Room.State.{RoomState, new}
use gb_mahjong_server_rust.Room.Action.{RoomCommand, handle_command}
use gb_mahjong_server_rust.Manager.{RoomTask, RoomManager}

-- One call of `handle_command` for each command, in the order of the commands.
pub data Ran : RoomState → List RoomCommand → RoomState → Type 0 where
  rested : {s : RoomState} → Ran s [] s
  then_ran :
      {s t : RoomState} {commands : List RoomCommand} (command : RoomCommand) (w : World)
      → Ran (handle_command command (record { state = s; world = w })).state commands t
      → Ran s (command ∷ commands) t

pub append-Ran :
    {s t u : RoomState} {xs ys : List RoomCommand} → Ran s xs t → Ran t ys u → Ran s (xs ++ ys) u
append-Ran rested q = q
append-Ran (then_ran command w p) q = then_ran command w (append-Ran p q)

-- A task as it was, or as it is spawned when there was none.
pub data Past (k : ℕ) (m : RoomManager) : RoomTask → Type 0 where
  was : {t : RoomTask} → get k m.tasks ≡ some t → Past k m t
  fresh :
      (room_id : String)
      → get k m.tasks ≡ none
      → Past k m (record { state = new room_id m.rule_engine; queue = [] })

-- The task of a number, when these commands are handled and those are handed over.
pub record TaskStep (k : ℕ) (m m' : RoomManager) (handled handed : List RoomCommand) : Type 0 where
  pub before :
      (t' : RoomTask)
      → get k m'.tasks ≡ some t'
      → (t : RoomTask) × Past k m t
        × Ran t.state handled t'.state
        × (t.queue ++ handed ≡ handled ++ t'.queue)
  pub never_there : get k m'.tasks ≡ none → (get k m.tasks ≡ none) × (handled ≡ []) × (handed ≡ [])
  pub same_engine : m'.rule_engine ≡ m.rule_engine

module _ (k : ℕ) where
  pub kept :
      (m m' : RoomManager)
      → m'.tasks ≡ m.tasks
      → m'.rule_engine ≡ m.rule_engine
      → TaskStep k m m' [] []
  kept m m' tasks engine = record {
    before = λ t there. (t, was (ap (get k) (sym tasks) ∙ there), rested, append-nil t.queue);
    never_there = λ gone. (ap (get k) (sym tasks) ∙ gone, refl, refl);
    same_engine = engine;
  }

  -- What a task of the end was at the start.
  abbrev Before : RoomManager → List RoomCommand → List RoomCommand → RoomTask → Type 0
  Before m handled handed t' =
      (t : RoomTask) × Past k m t
      × Ran t.state handled t'.state
      × (t.queue ++ handed ≡ handled ++ t'.queue)

  bridge :
      (m m₁ : RoomManager) (a b c d : List RoomCommand)
      → TaskStep k m m₁ a b
      → (t₁ t₂ : RoomTask) → Past k m₁ t₁
      → Ran t₁.state c t₂.state
      → t₁.queue ++ d ≡ c ++ t₂.queue
      → Before m (a ++ c) (b ++ d) t₂
  bridge m m₁ a b c d p t₁ t₂ (was there) ran lined =
      let (t, past, ran₀, lined₀) = p.before t₁ there in
      (
        t,
        past,
        append-Ran ran₀ ran,
        t.queue ++ (b ++ d)
            ≡⟨ sym (append_assoc t.queue b d) ⟩ (t.queue ++ b) ++ d
            ≡⟨ ap (λ (xs : List RoomCommand). xs ++ d) lined₀ ⟩ (a ++ t₁.queue) ++ d
            ≡⟨ append_assoc a t₁.queue d ⟩ a ++ (t₁.queue ++ d)
            ≡⟨ ap (λ (xs : List RoomCommand). a ++ xs) lined ⟩ a ++ (c ++ t₂.queue)
            ≡⟨ sym (append_assoc a c t₂.queue) ⟩ (a ++ c) ++ t₂.queue ∎,
      )
  bridge m m₁ a b c d p t₁ t₂ (fresh room_id gone) ran lined =
      let (gone₀, a_nil, b_nil) = p.never_there gone in
      let state : RoomState = new room_id m.rule_engine in
      let same : new room_id m₁.rule_engine ≡ state = ap (new room_id) p.same_engine in
      (
        record { state = state; queue = [] },
        fresh room_id gone₀,
        subst (λ (xs : List RoomCommand). Ran state (xs ++ c) t₂.state) (sym a_nil)
            (subst (λ (s : RoomState). Ran s c t₂.state) same ran),
        rw (a_nil, b_nil) lined,
      )

  pub in_turn :
      (m m₁ m₂ : RoomManager) (a b c d : List RoomCommand)
      → TaskStep k m m₁ a b
      → TaskStep k m₁ m₂ c d
      → TaskStep k m m₂ (a ++ c) (b ++ d)
  in_turn m m₁ m₂ a b c d p q = record {
    before = λ t₂ there.
        let (t₁, past, ran, lined) = q.before t₂ there in
        bridge m m₁ a b c d p t₁ t₂ past ran lined;
    never_there = λ gone.
        let (gone₁, c_nil, d_nil) = q.never_there gone in
        let (gone₀, a_nil, b_nil) = p.never_there gone₁ in
        (gone₀, rw (a_nil, c_nil) refl, rw (b_nil, d_nil) refl);
    same_engine = q.same_engine ∙ p.same_engine;
  }

  -- The commands of a step at channel j, as far as they concern task k.
  abbrev pub at_task : ℕ → List RoomCommand → List RoomCommand
  at_task j commands = if j == k then commands else []

  -- A number without a task had none before another was entered.
  still_gone :
      (m m' : RoomManager) (j : ℕ) (t : RoomTask)
      → m'.tasks ≡ insert j t m.tasks
      → get k m'.tasks ≡ none
      → ((j == k) ≡ false) × (get k m.tasks ≡ none)
  still_gone m m' j t tasks gone =
      let nothing : (if j == k then some t else get k m.tasks) ≡ none =
        sym (get-insert j k t m.tasks) ∙ ap (get k) (sym tasks) ∙ gone in
      elim (Bool-cases (j == k)) [
        | inl same ↦ let full : some t ≡ none = sym (rw same refl) ∙ nothing in cc
        | inr apart ↦ (apart, sym (rw apart refl) ∙ nothing)
      ]

  -- A step that replaces the task of one number.
  module _ (m m' : RoomManager) (j : ℕ) (t t' : RoomTask) (there : get j m.tasks ≡ some t)
      (tasks : m'.tasks ≡ insert j t' m.tasks) (engine : m'.rule_engine ≡ m.rule_engine)
      (handled handed : List RoomCommand) (ran : Ran t.state handled t'.state)
      (lined : t.queue ++ handed ≡ handled ++ t'.queue) where
    replaced_found :
        (u : RoomTask) → get k m'.tasks ≡ some u → Before m (at_task j handled) (at_task j handed) u
    replaced_found u found =
        let here : get k (insert j t' m.tasks) ≡ some u = ap (get k) (sym tasks) ∙ found in
        elim (insert_cases j k t' u m.tasks here) [
          | inl (same, is_new) ↦
              let yes_k : (j == k) ≡ true = (eq_iff j k).1 same in
              (
                t,
                was (subst (λ (i : ℕ). get i m.tasks ≡ some t) same there),
                rw (yes_k, is_new) ran,
                rw (yes_k, is_new) lined,
              )
          | inr (apart, old) ↦
              let not_k : (j == k) ≡ false = ground (arith, eq_iff j k) in
              (u, was old, rw not_k rested, rw not_k (append-nil u.queue))
        ]

    pub replaced : TaskStep k m m' (at_task j handled) (at_task j handed)
    replaced = record {
      before = replaced_found;
      never_there = λ gone.
          let (not_k, nothing) = still_gone m m' j t' tasks gone in
          (nothing, rw not_k refl, rw not_k refl);
      same_engine = engine;
    }

  -- A step that spawns a task.
  pub spawned :
      (m m' : RoomManager) (j : ℕ) (room_id : String)
      → get j m.tasks ≡ none
      → m'.tasks ≡ insert j (record { state = new room_id m.rule_engine; queue = [] }) m.tasks
      → m'.rule_engine ≡ m.rule_engine
      → TaskStep k m m' [] []
  spawned m m' j room_id unused tasks engine = record {
    before = λ u found. elim (insert_cases j k _ u m.tasks (ap (get k) (sym tasks) ∙ found)) [
      | inl (same, is_new) ↦ (
        record { state = new room_id m.rule_engine; queue = [] },
        fresh room_id (subst (λ (i : ℕ). get i m.tasks ≡ none) same unused),
        rw is_new rested,
        rw is_new refl,
      )
      | inr (apart, old) ↦ (u, was old, rested, append-nil u.queue)
    ];
    never_there =
        λ gone. let (_, nothing) = still_gone m m' j _ tasks gone in (nothing, refl, refl);
    same_engine = engine;
  }
