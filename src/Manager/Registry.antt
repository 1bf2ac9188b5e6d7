-- ===== src/Manager/Registry.antt =====
-- One task for each room (src/room.rs: RoomManager).
use gb_mahjong_server_rust.Prelude.{
  ℕ, ◌<◌, ◌≡◌, ◌≢◌, sym, ap, ◌∙◌, inl, inr, none, some, [], String, ◌==◌, nat_eq, string_eq, eq_iff,
  arith, Bool-cases,
}
use mathlib.Core.Option.{some-injective}
use gb_mahjong_server_rust.HashMap.{get, insert}
use gb_mahjong_server_rust.HashMap.Laws.{
  get-insert, get-insert_same, get-insert_other, insert_cases,
}
use gb_mahjong_server_rust.Engine.{RuleEngineHandle}
use gb_mahjong_server_rust.World.{World}
use gb_mahjong_server_rust.Room.State.{new}
use gb_mahjong_server_rust.Room.Invariant.{IsWellFormed}
use gb_mahjong_server_rust.Room.Invariant.Run.{new-IsWellFormed}
use gb_mahjong_server_rust.Manager.{RoomTask, RoomManager, with_rule_engine, spawn_room}

-- Every room in the registry has a running task of that room; every task is registered under its
-- room's id and was spawned, and its tables are well-formed.
pub record IsRegistered (m : RoomManager) : Type 0 where
  pub running :
      (room_id : String) (k : ℕ)
      → get room_id m.rooms ≡ some k
      → (t : RoomTask) × (get k m.tasks ≡ some t) × (t.state.room_id ≡ room_id)
  pub registered :
      (k : ℕ) (t : RoomTask) → get k m.tasks ≡ some t → get t.state.room_id m.rooms ≡ some k
  pub numbered : (k : ℕ) (t : RoomTask) → get k m.tasks ≡ some t → k < m.spawned
  pub well_formed : (k : ℕ) (t : RoomTask) → get k m.tasks ≡ some t → IsWellFormed t.state

pub with_rule_engine-IsRegistered :
    (rule_engine : RuleEngineHandle) (send_error : String) (w : World)
    → IsRegistered (with_rule_engine rule_engine send_error w)
unfolding with_rule_engine get
with_rule_engine-IsRegistered rule_engine send_error w = record {
  running = λ room_id k e. cc;
  registered = λ k t e. cc;
  numbered = λ k t e. cc;
  well_formed = λ k t e. cc;
}

module _ (m : RoomManager) (v : IsRegistered m) where
  -- An update of a task that keeps its room's id.
  module _ (k : ℕ) (t t' : RoomTask) (w : World) (there : get k m.tasks ≡ some t)
      (same : t'.state.room_id ≡ t.state.room_id) (ok : IsWellFormed t'.state) where
    abbrev updated : RoomManager
    updated = record m { tasks = insert k t' m.tasks; world = w }

    still_running :
        (room_id : String) (j : ℕ)
        → get room_id m.rooms ≡ some j
        → (u : RoomTask) × (get j updated.tasks ≡ some u) × (u.state.room_id ≡ room_id)
    still_running room_id j found =
        let (u, here, named) = v.running room_id j found in
        elim (Bool-cases (k == j)) [
          | inl eq ↦
              let k_is_j = (eq_iff k j).0 eq in
              let u_is_t : t ≡ u = some-injective t u (sym there ∙ rw k_is_j here) in
              (
                t',
                get-insert k j t' m.tasks ∙ rw eq,
                same ∙ ap (λ (x : RoomTask). x.state.room_id) u_is_t ∙ named,
              )
          | inr apart ↦ (u, get-insert k j t' m.tasks ∙ rw apart here, named)
        ]

    pub update-IsRegistered : IsRegistered updated
    update-IsRegistered = record {
      running = still_running;
      registered = λ j u found. elim (insert_cases k j t' u m.tasks found) [
        | inl (k_is_j, is_new) ↦ rw (is_new, same, ← k_is_j) (v.registered k t there)
        | inr (_, old) ↦ v.registered j u old
      ];
      numbered = λ j u found. elim (insert_cases k j t' u m.tasks found) [
        | inl (k_is_j, _) ↦ rw (← k_is_j) (v.numbered k t there)
        | inr (_, old) ↦ v.numbered j u old
      ];
      well_formed = λ j u found. elim (insert_cases k j t' u m.tasks found) [
        | inl (_, is_new) ↦ rw is_new ok
        | inr (_, old) ↦ v.well_formed j u old
      ];
    }

  module _ (room_id : String) (fresh : get room_id m.rooms ≡ none) where
    abbrev spawned : RoomManager
    spawned = (spawn_room room_id m).1

    abbrev first : RoomTask
    first = record { state = new room_id m.rule_engine; queue = [] }

    -- The number of a new task is not in use.
    unused : (j : ℕ) (u : RoomTask) → get j m.tasks ≡ some u → m.spawned ≢ j
    unused j u found eq = let low = v.numbered j u found in omega arith

    runs :
        (other : String) (j : ℕ)
        → get other spawned.rooms ≡ some j
        → (u : RoomTask) × (get j spawned.tasks ≡ some u) × (u.state.room_id ≡ other)
    unfolding spawn_room new
    runs other j found = elim (insert_cases room_id other m.spawned j m.rooms found) [
      | inl (is_room, is_new) ↦
          (first, rw is_new (get-insert_same m.spawned first m.tasks), is_room)
      | inr (_, old) ↦
          let (u, here, named) = v.running other j old in
          (u, get-insert_other m.spawned j first m.tasks (unused j u here) ∙ here, named)
    ]

    is_listed :
        (j : ℕ) (u : RoomTask)
        → get j spawned.tasks ≡ some u
        → get u.state.room_id spawned.rooms ≡ some j
    unfolding spawn_room new
    is_listed j u found = elim (insert_cases m.spawned j first u m.tasks found) [
      | inl (is_next, is_new) ↦ rw (is_new, ← is_next) (get-insert_same room_id m.spawned m.rooms)
      | inr (_, old) ↦
          let listed = v.registered j u old in
          get-insert_other room_id u.state.room_id m.spawned m.rooms (λ eq. cc) ∙ listed
    ]

    pub spawn_room-IsRegistered : IsRegistered spawned
    unfolding spawn_room
    spawn_room-IsRegistered = record {
      running = runs;
      registered = is_listed;
      numbered = λ j u found. elim (insert_cases m.spawned j first u m.tasks found) [
        | inl (is_next, _) ↦ omega arith
        | inr (_, old) ↦ let low = v.numbered j u old in omega arith
      ];
      well_formed = λ j u found. elim (insert_cases m.spawned j first u m.tasks found) [
        | inl (_, is_new) ↦ rw is_new (new-IsWellFormed room_id m.rule_engine)
        | inr (_, old) ↦ v.well_formed j u old
      ];
    }
