-- ===== src/Room/Invariant/Join.antt =====
-- The three insertions of a join keep the invariant.
use mathlib.Core.Path.{subst₂}
use mathlib.Core.Option.{some-injective}
use gb_mahjong_server_rust.Prelude.{
  ◌≡◌, refl, inl, inr, false, none, some, String, ◌==◌, string_eq, nat_eq, eq_iff, eq_self,
  if◌then◌else◌, arith, Option-cases, Bool-cases,
}
use gb_mahjong_server_rust.HashMap.{get}
use gb_mahjong_server_rust.HashMap.Laws.{get-insert, insert-HasDistinctKeys}
use gb_mahjong_server_rust.HashMap.Values.{all-insert-false}
use gb_mahjong_server_rust.Proto.Client.{
  Seat, GamePhase, PlayerStatus, JoinRoomRequest, seat_eq, player_status_eq, player_status_number,
}
use gb_mahjong_server_rust.World.{ConnectionHandle}
use gb_mahjong_server_rust.Room.State.{PlayerSlot, RoomState, next_open_seat}
use gb_mahjong_server_rust.Room.Seating.{resume_token_for, seat_player, new_player, is_all_ready}
use gb_mahjong_server_rust.Room.Invariant.{IsFiled, IsWellFormed}
use gb_mahjong_server_rust.Room.Invariant.Count.{next_open_seat_free, next_open_seat_full}

module _ (s : RoomState) (v : IsWellFormed s) where
  pub unspecified_free : get Seat.unspecified s.players_by_seat ≡ none
  unspecified_free = elim (Option-cases (get Seat.unspecified s.players_by_seat)) [
    | inl e ↦ e
    | inr (p, e) ↦ absurd ((v.filed Seat.unspecified p e).real refl)
  ]

  -- With a seat left, not all four players are there.
  not_all_ready : (seat : Seat) → next_open_seat s ≡ some seat → is_all_ready s ≡ false
  unfolding is_all_ready
  not_all_ready seat free =
      ground (arith, v.table_size, next_open_seat_full s v.distinct unspecified_free)

  module _ (request : JoinRoomRequest) (connection : ConnectionHandle) (seat : Seat)
      (new : get request.user_id s.user_to_seat ≡ none) (free : next_open_seat s ≡ some seat) where
    abbrev token : String
    token = resume_token_for s.room_id request.user_id

    abbrev t : RoomState
    t = seat_player request connection seat token s

    seated :
        (user_id : String) (seat' : Seat)
        → get user_id t.user_to_seat ≡ some seat'
        → (p : PlayerSlot) × (get seat' t.players_by_seat ≡ some p) × (p.user_id ≡ user_id)
    unfolding seat_player
    seated user_id seat' e = elim (Bool-cases (request.user_id == user_id)) [
      | inl same ↦ (
        new_player request connection seat token,
        ground (
          arith,
          get-insert seat seat' (new_player request connection seat token) s.players_by_seat,
          get-insert request.user_id user_id seat s.user_to_seat,
          eq_iff seat seat',
        ),
        (eq_iff request.user_id user_id).0 same,
      )
      | inr other ↦
          let (q, found, owner) = v.seated user_id seat' (rw (get-insert, other) at e) in
          let (gone, real) = next_open_seat_free s seat free in
          (
            q,
            ground (
              arith,
              get-insert seat seat' (new_player request connection seat token) s.players_by_seat,
              eq_iff seat seat',
            ),
            owner,
          )
    ]

    IsFiled-new : IsFiled s.room_id t.user_to_seat seat (new_player request connection seat token)
    unfolding seat_player
    IsFiled-new = record {
      owner = rw (get-insert, eq_self request.user_id);
      own_seat = refl;
      real = (next_open_seat_free s seat free).1;
      token = refl;
      identified = refl;
      reachable = refl;
    }

    filed :
        (seat' : Seat) (p : PlayerSlot)
        → get seat' t.players_by_seat ≡ some p
        → IsFiled s.room_id t.user_to_seat seat' p
    unfolding seat_player
    filed seat' p e = elim (Bool-cases (seat == seat')) [
      | inl here ↦
          subst₂ (IsFiled s.room_id t.user_to_seat) ((eq_iff seat seat').0 here)
            (some-injective (new_player request connection seat token) p
              (rw (get-insert, here) at e))
            IsFiled-new
      | inr there ↦
          let f = v.filed seat' p (rw (get-insert, there) at e) in
          record {
            owner = ground (
              arith,
              f.owner,
              get-insert request.user_id p.user_id seat s.user_to_seat,
              eq_iff request.user_id p.user_id,
            );
            own_seat = f.own_seat;
            real = f.real;
            token = f.token;
            identified = f.identified;
            reachable = f.reachable;
          }
    ]

    routed :
        (connection_id user_id : String)
        → get connection_id t.connection_to_user ≡ some user_id
        → (seat' : Seat) × (get user_id t.user_to_seat ≡ some seat')
    unfolding seat_player
    routed connection_id user_id e = elim (Bool-cases (request.user_id == user_id)) [
      | inl same ↦ (seat, rw (get-insert, same))
      | inr other ↦
          let (seat', found) = v.routed connection_id user_id (
            ground (
              arith,
              get-insert connection.connection_id connection_id request.user_id
                  s.connection_to_user,
              eq_iff request.user_id user_id,
            )) in
          (seat', rw (get-insert, other) found)
    ]

    phased : t.phase ≡ (if is_all_ready t then GamePhase.dealing else GamePhase.lobby)
    unfolding seat_player is_all_ready player_status_number
    phased = ground (
      arith,
      v.phased,
      not_all_ready seat free,
      all-insert-false (λ player. player.status == PlayerStatus.ready) seat
          (new_player request connection seat token) s.players_by_seat refl,
    )

    pub seat_player-IsWellFormed : IsWellFormed t
    unfolding seat_player
    seat_player-IsWellFormed = record {
      seated = seated;
      filed = filed;
      routed = routed;
      distinct =
          insert-HasDistinctKeys seat (new_player request connection seat token) s.players_by_seat
            v.distinct;
      phased = phased;
      table_size = v.table_size;
    }
