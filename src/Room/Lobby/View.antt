-- ===== src/Room/Lobby/View.antt =====
-- The lobby that the tables of a room stand for (src/room.rs: RoomState), and what an update of a table
-- does to it.
use mathlib.Core.Path.{fun_ext}
use mathlib.Core.Option
use mathlib.Core.Bool.{true≢false}
use gb_mahjong_server_rust.Prelude.{
  ◌≡◌, refl, sym, ap, ◌∙◌, inl, inr, Bool, true, false, Option, none, some, String, ◌==◌, string_eq,
  not, is_some, find, eq_iff, arith, Option-cases, Bool-cases,
}
use gb_mahjong_server_rust.HashMap.{HashMap, get, insert}
use gb_mahjong_server_rust.HashMap.Laws.{get-insert}
use gb_mahjong_server_rust.Proto.Client.{Seat, seat_eq}
use gb_mahjong_server_rust.Room.State.{
  PlayerSlot, RoomState, seat_order, next_open_seat, seat_for_connection, round_id,
}
use gb_mahjong_server_rust.Room.Invariant.{IsWellFormed}
use gb_mahjong_server_rust.Room.Invariant.Join.{unspecified_free}
use gb_mahjong_server_rust.Room.Seating.Renumber.{Renumbers}
use gb_mahjong_server_rust.Room.Lobby.{
  Member, Lobby, holds, seat_held_by, free_seat, seat_at, change_at,
}

abbrev pub member : PlayerSlot → Member
member player = record {
  user_id = player.user_id;
  status = player.status;
  auto_play = player.auto_play_enabled;
  connection = player.connection_id;
}

abbrev pub members : HashMap Seat PlayerSlot → Seat → Option Member
members players seat = Option.map member (get seat players)

abbrev pub view : RoomState → Lobby
view s = record {
  room_id = s.room_id;
  match_id = s.match_id;
  round_id = round_id s;
  member_at = members s.players_by_seat;
  seat_of = seat_for_connection s;
}

-- The numbers of the notifications do not show.
pub view-Renumbers : (s : RoomState) {s' : RoomState} → Renumbers s s' → view s' ≡ view s
unfolding round_id seat_for_connection
view-Renumbers s (n, e) = ap view e

module _ (players : HashMap Seat PlayerSlot) (seat : Seat) where
  pub members-insert :
      (player : PlayerSlot)
      → members (insert seat player players) ≡ seat_at seat (member player) (members players)
  members-insert player = fun_ext (λ j. elim (Bool-cases (seat == j)) [
    | inl here ↦ rw (get-insert, here) refl
    | inr there ↦ rw (get-insert, there) refl
  ])

  pub members-change :
      (change : Member → Member) (player player' : PlayerSlot)
      → get seat players ≡ some player
      → member player' ≡ change (member player)
      → members (insert seat player' players) ≡ change_at seat change (members players)
  members-change change player player' found changed = fun_ext (λ j. elim (Bool-cases (seat == j)) [
    | inl here ↦ rw (get-insert, here, sym ((eq_iff seat j).0 here), found) (ap some changed)
    | inr there ↦ rw (get-insert, there) refl
  ])

-- A test that only one real seat passes finds it.
find_seat :
    (test : Seat → Bool) (o : Option Seat)
    → ((seat : Seat) → test seat ≡ true → o ≡ some seat)
    → ((seat : Seat) → o ≡ some seat → test seat ≡ true)
    → test Seat.unspecified ≡ false
    → find test seat_order ≡ o
find_seat test none sound complete no_other =
    rw
      (
        test_false sound Seat.east,
        test_false sound Seat.south,
        test_false sound Seat.west,
        test_false sound Seat.north,
      )
      refl
  where
    test_false :
        ((seat : Seat) → test seat ≡ true → none ≡ some seat) → (seat : Seat) → test seat ≡ false
    test_false never seat = ground (arith, never seat)
find_seat test (some seat) sound complete no_other = ground (
  arith,
  complete seat refl,
  no_other,
  sound Seat.east,
  sound Seat.south,
  sound Seat.west,
  sound Seat.north,
)

module _ (s : RoomState) (v : IsWellFormed s) where
  holds-members :
      (user_id : String) (seat : Seat)
      → holds user_id (members s.players_by_seat seat) ≡ true
      → get user_id s.user_to_seat ≡ some seat
  holds-members user_id seat held = elim (Option-cases (get seat s.players_by_seat)) [
    | inl gone ↦ absurd (true≢false (sym held ∙ rw (gone) refl))
    | inr (p, there) ↦
        let same : p.user_id ≡ user_id = (eq_iff p.user_id user_id).0 (rw (there) at held) in
        ap (λ u. get u s.user_to_seat) (sym same) ∙ (v.filed seat p there).owner
  ]

  members-holds :
      (user_id : String) (seat : Seat)
      → get user_id s.user_to_seat ≡ some seat
      → holds user_id (members s.players_by_seat seat) ≡ true
  members-holds user_id seat found =
      let (p, there, owner) = v.seated user_id seat found in
      rw (there) ((eq_iff p.user_id user_id).1 owner)

  -- The table of the users finds the seat that holds the user.
  pub seat_held_by-view :
      (user_id : String) → seat_held_by user_id (view s) ≡ get user_id s.user_to_seat
  unfolding seat_held_by
  seat_held_by-view user_id =
      find_seat (λ seat. holds user_id (members s.players_by_seat seat))
        (get user_id s.user_to_seat) (holds-members user_id) (members-holds user_id)
        (rw (unspecified_free s v) refl)

pub free_seat-view : (s : RoomState) → free_seat (view s) ≡ next_open_seat s
unfolding next_open_seat free_seat
free_seat-view s =
    ap (λ (there : Seat → Bool). find (λ seat. not (there seat)) seat_order)
      (fun_ext (is_some-members s.players_by_seat))
  where
    is_some-members :
        (players : HashMap Seat PlayerSlot) (seat : Seat)
        → is_some (members players seat) ≡ is_some (get seat players)
    is_some-members players seat = elim (Option-cases (get seat players)) [
      | inl e ↦ rw (e) refl
      | inr (p, e) ↦ rw (e) refl
    ]
