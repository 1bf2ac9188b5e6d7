-- ===== src/Room/Phase.antt =====
-- When the deal begins (src/room.rs: handle_ready).
use gb_mahjong_server_rust.Prelude.{
  ◌≡◌, ◌≢◌, refl, sym, ap, ◌∙◌, ◌↔◌, inl, inr, none, some, true, ◌+◌, nat_eq, ◌==◌, eq_iff, arith,
  Option-cases, all, All,
}
use mathlib.Core.Option.{some-injective}
use gb_mahjong_server_rust.HashMap.{get, values, len}
use gb_mahjong_server_rust.HashMap.Values.{all-get, all-of-get}
use gb_mahjong_server_rust.Proto.Client.{
  Seat, GamePhase, PlayerStatus, seat_eq, seat_number, player_status_eq, game_phase_number,
}
use gb_mahjong_server_rust.Room.State.{PlayerSlot, RoomState, seat_order}
use gb_mahjong_server_rust.Room.Seating.{is_all_ready}
use gb_mahjong_server_rust.Room.Invariant.{IsWellFormed}
use gb_mahjong_server_rust.Room.Invariant.Count.{len-taken, taken}
use gb_mahjong_server_rust.Room.Invariant.Join.{unspecified_free}

-- A player sits there and is ready.
abbrev pub HasReady : RoomState → Seat → Type 0
HasReady s seat =
    (p : PlayerSlot) × (get seat s.players_by_seat ≡ some p) × (p.status ≡ PlayerStatus.ready)

module _ (s : RoomState) (v : IsWellFormed s) where
  is_all_ready-full : is_all_ready s ≡ true → len s.players_by_seat ≡ 4
  unfolding is_all_ready
  is_all_ready-full ready = ground (arith, v.table_size)

  is_all_ready-each :
      is_all_ready s ≡ true
      → all (λ p. p.status == PlayerStatus.ready) (values s.players_by_seat) ≡ true
  unfolding is_all_ready
  is_all_ready-each ready = ground arith

  count :
      len s.players_by_seat
      ≡ taken Seat.east s.players_by_seat
        + taken Seat.south s.players_by_seat
        + taken Seat.west s.players_by_seat
        + taken Seat.north s.players_by_seat
  count = len-taken s.players_by_seat v.distinct (unspecified_free s v)

  free_seat :
      (seat : Seat)
      → seat ≢ Seat.unspecified
      → get seat s.players_by_seat ≡ none
      → len s.players_by_seat ≢ 4
  free_seat Seat.unspecified real free four = real refl
  free_seat Seat.east real free four = ground (arith, count)
  free_seat Seat.south real free four = ground (arith, count)
  free_seat Seat.west real free four = ground (arith, count)
  free_seat Seat.north real free four = ground (arith, count)

  ready_at : (seat : Seat) → seat ≢ Seat.unspecified → is_all_ready s ≡ true → HasReady s seat
  ready_at seat real ready = elim (Option-cases (get seat s.players_by_seat)) [
    | inl free ↦ absurd (free_seat seat real free (is_all_ready-full ready))
    | inr (p, e) ↦ (
      p,
      e,
      (eq_iff p.status PlayerStatus.ready).0 (
          all-get (λ p. p.status == PlayerStatus.ready) seat p s.players_by_seat
            (is_all_ready-each ready) e),
    )
  ]

  is_ready :
      (seat : Seat) (p : PlayerSlot)
      → HasReady s seat
      → get seat s.players_by_seat ≡ some p
      → (p.status == PlayerStatus.ready) ≡ true
  is_ready seat p (q, there, ready) found =
      (eq_iff p.status PlayerStatus.ready).1
        (ap (λ (p : PlayerSlot). p.status) (some-injective p q (sym found ∙ there)) ∙ ready)

  ready_of :
      All (HasReady s) seat_order
      → (seat : Seat) (p : PlayerSlot) → get seat s.players_by_seat ≡ some p
      → (p.status == PlayerStatus.ready) ≡ true
  ready_of h Seat.unspecified p found = let free = unspecified_free s v in cc
  ready_of h Seat.east p found = is_ready Seat.east p h.0 found
  ready_of h Seat.south p found = is_ready Seat.south p h.1.0 found
  ready_of h Seat.west p found = is_ready Seat.west p h.1.1.0 found
  ready_of h Seat.north p found = is_ready Seat.north p h.1.1.1.0 found

  taken_by : (seat : Seat) → HasReady s seat → taken seat s.players_by_seat ≡ 1
  taken_by seat (p, there, _) = rw there refl

  full_table : All (HasReady s) seat_order → len s.players_by_seat ≡ 4
  full_table h =
      count
      ∙ rw
          (
            taken_by Seat.east h.0,
            taken_by Seat.south h.1.0,
            taken_by Seat.west h.1.1.0,
            taken_by Seat.north h.1.1.1.0,
          )
          refl

  pub is_all_ready-HasReady : All (HasReady s) seat_order → is_all_ready s ≡ true
  unfolding is_all_ready
  is_all_ready-HasReady h =
      let four = full_table h in
      let each =
        all-of-get (λ p. p.status == PlayerStatus.ready) s.players_by_seat v.distinct
          (ready_of h) in
      ground (arith, v.table_size)

  dealing_of : is_all_ready s ≡ true → s.phase ≡ GamePhase.dealing
  dealing_of ready = v.phased ∙ rw ready refl

  of_dealing : s.phase ≡ GamePhase.dealing → is_all_ready s ≡ true
  unfolding game_phase_number
  of_dealing dealing = ground (arith, v.phased)

  pub is_all_ready_each : is_all_ready s ≡ true → All (HasReady s) seat_order
  unfolding seat_number
  is_all_ready_each ready = (
    ready_at Seat.east (λ e. cc) ready,
    (
      ready_at Seat.south (λ e. cc) ready,
      (ready_at Seat.west (λ e. cc) ready, (ready_at Seat.north (λ e. cc) ready, tt)),
    ),
  )

  -- In a well-formed room the phase is the deal exactly when each of the four seats has a player who
  -- is ready.
  pub phase_dealing : (s.phase ≡ GamePhase.dealing) ↔ All (HasReady s) seat_order
  phase_dealing =
      (λ dealing. is_all_ready_each (of_dealing dealing), λ h. dealing_of (is_all_ready-HasReady h))
