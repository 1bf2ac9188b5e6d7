-- ===== src/Manager/Calls/Answers.antt =====
-- Which calls of the rule engine are answered, along the steps of callers and tasks (src/room.rs:
-- RoomManager, run_room_task).
use gb_mahjong_server_rust.Prelude.{
  ℕ, true, ap, ◌≡◌, refl, sym, ◌∙◌, subst, inl, inr, none, some, List, [], ◌∷◌, nat_eq, string_eq,
  Option-cases,
}
use gb_mahjong_server_rust.Prelude.Positions.{get_elem?, set}
use mathlib.Core.Option.{some-injective}
use gb_mahjong_server_rust.Manager.Calls.{
  System, Move, arrive, go_on, serve, advance, serve_task, move, run,
}

-- Which calls the engine answers does not change.
move-answers : (x : Move) (s s' : System) → move x s ≡ some s' → s'.answers ≡ s.answers
unfolding move
move-answers (arrive call) s s' e = ap (λ (t : System). t.answers) (sym (some-injective _ s' e))
move-answers (go_on i) s s' e = elim (Option-cases (get_elem? s.callers i)) [
  | inl gone ↦ let stuck : none ≡ some s' = sym (rw (gone, move) refl) ∙ e in cc
  | inr (c, here) ↦ elim (Option-cases (advance c.call c.at s.manager)) [
    | inl waits ↦ let stuck : none ≡ some s' = sym (rw (here, move, waits) refl) ∙ e in cc
    | inr ((at, m'), goes) ↦
        let next : System = record s {
          manager = m';
          callers = set s.callers i (record c { at = at });
        } in
        ap (λ (t : System). t.answers)
          (sym (some-injective next s' (sym (rw (here, move, goes) refl) ∙ e)))
  ]
]
move-answers (serve k) s s' e = elim (Option-cases (serve_task s.answers k s.manager)) [
  | inl waits ↦ let stuck : none ≡ some s' = sym (rw (waits, move) refl) ∙ e in cc
  | inr (m', goes) ↦
      let next : System = record s { manager = m' } in
      ap (λ (t : System). t.answers) (sym (some-injective next s' (sym (rw (goes, move) refl) ∙ e)))
]

-- Every call of the engine is answered.
abbrev pub AnswersAll : System → Type 0
AnswersAll s = (call : ℕ) → s.answers call ≡ true

pub move-AnswersAll : (x : Move) (s s' : System) → AnswersAll s → move x s ≡ some s' → AnswersAll s'
move-AnswersAll x s s' h e call = ap (λ f. f call) (move-answers x s s' e) ∙ h call

pub run-AnswersAll :
    (xs : List Move) (s s' : System) → AnswersAll s → run xs s ≡ some s' → AnswersAll s'
unfolding run
run-AnswersAll [] s s' h e = subst AnswersAll (some-injective s s' e) h
run-AnswersAll (x ∷ xs) s s' h e = elim (Option-cases (move x s)) [
  | inl waits ↦ let stuck : none ≡ some s' = sym (rw (waits, run) refl) ∙ e in cc
  | inr (next, goes) ↦
      run-AnswersAll xs next s' (move-AnswersAll x s next h goes) (sym (rw (goes, run) refl) ∙ e)
]
