-- ===== src/Room/Unordered.antt =====
-- The order in which a HashMap is gone through (src/room.rs: the loops over players_by_seat.values()).
use mathlib.Core.List.{Perm, foldr}
use mathlib.Core.List
use mathlib.Core.List.Perm
use mathlib.Core.Bool.{Bool-set}
use native.Mathlib.Nat.{ℕ_set}
use mathlib.Core.Option.{Option-elim}
use gb_mahjong_server_rust.Prelude.{
  ℕ, suc, ◌≡◌, refl, sym, ap, ◌∙◌, Bool, true, ◌&&◌, arith, Option, none, some, List, [], ◌∷◌,
  filter_map, all, ◌==◌, nat_eq, length,
}
use gb_mahjong_server_rust.HashMap.{HashMap, get, values, len}
use gb_mahjong_server_rust.Proto.Client.{Seat, PlayerStatus, ServerFrame, seat_eq, player_status_eq}
use gb_mahjong_server_rust.Room.State.{PlayerSlot, Room}
use gb_mahjong_server_rust.Room.Send.{broadcast_connection_changed}
use gb_mahjong_server_rust.Room.Send.Cases.{live_channel}
use gb_mahjong_server_rust.Room.Send.Fanout.{fanout, broadcast_connection_changed-fanout}
use gb_mahjong_server_rust.Room.Seating.{is_all_ready}

module _ {A B : Type 0} where
  filter_map-library : (f : A → Option B) (xs : List A) → List.filter_map f xs ≡ filter_map f xs
  unfolding List.filter_map Option-elim
  filter_map-library f [] = refl
  filter_map-library f (x ∷ xs) = elim (f x) as (λ o. Joined o) [
    | none ↦ filter_map-library f xs
    | some y ↦ ap (λ l. y ∷ l) (filter_map-library f xs)
  ]
    where
      Joined : Option B → Type 0
      Joined o =
          Option-elim o (List.filter_map f xs) (λ y. y ∷ List.filter_map f xs)
          ≡ elim o [ none ↦ filter_map f xs | some y ↦ y ∷ filter_map f xs ]

  filter_map-Perm :
      (f : A → Option B) (xs ys : List A) → Perm xs ys → Perm (filter_map f xs) (filter_map f ys)
  filter_map-Perm f xs ys p =
      rw (← filter_map-library f xs, ← filter_map-library f ys) (Perm.filter_map f p)

module _ {A : Type 0} (q : A → Bool) where
  both : A → Bool → Bool
  both x b = q x && b

  both_comm : (x y : A) (b : Bool) → both x (both y b) ≡ both y (both x b)
  unfolding both
  both_comm x y b = ground arith

  all-foldr : (xs : List A) → all q xs ≡ foldr both true xs
  unfolding both
  all-foldr [] = refl
  all-foldr (x ∷ xs) = ap (λ b. q x && b) (all-foldr xs)

  all-Perm : (xs ys : List A) → Perm xs ys → all q xs ≡ all q ys
  all-Perm xs ys p =
      all-foldr xs ∙ Perm.foldr-eq Bool-set both both_comm p true ∙ sym (all-foldr ys)

-- The number of entries, which the library counts in another way.
count : {A : Type 0} → A → ℕ → ℕ
count x n = suc n

length-foldr : {A : Type 0} (xs : List A) → length xs ≡ foldr count 0 xs
unfolding count
length-foldr [] = refl
length-foldr (x ∷ xs) = ap suc (length-foldr xs)

len-Perm : {A : Type 0} {xs ys : List A} → Perm xs ys → length xs ≡ length ys
unfolding count
len-Perm {xs} {ys} p =
    length-foldr xs ∙ Perm.foldr-eq ℕ_set count (λ x y n. refl) p 0 ∙ sym (length-foldr ys)

fanout-Perm :
    (frame : ServerFrame) (players players' : List PlayerSlot)
    → Perm players players'
    → Perm (fanout frame players) (fanout frame players')
fanout-Perm frame players players' p =
    Perm.map (λ tx. (tx, frame)) (filter_map-Perm live_channel players players' p)

-- Two rooms that differ only in the order in which the table of the players is gone through: all are
-- ready in one as in the other, and a change of a connection is told to the same channels with the
-- same frame, in some order.
pub broadcast_connection_changed-Perm :
    (seat : Seat) (connected : Bool) (player : PlayerSlot) (r : Room)
    (reordered : HashMap Seat PlayerSlot)
    → Perm r.state.players_by_seat reordered
    → get seat r.state.players_by_seat ≡ some player
    → get seat reordered ≡ some player
    → let r' : Room = record r { state = record r.state { players_by_seat = reordered } } in
      (is_all_ready r.state ≡ is_all_ready r'.state)
      × Perm
          (broadcast_connection_changed seat connected r).world.sent
          (broadcast_connection_changed seat connected r').world.sent
unfolding is_all_ready
broadcast_connection_changed-Perm seat connected player r reordered p there there' =
    let r' : Room = record r { state = record r.state { players_by_seat = reordered } } in
    let shown = Perm.map (λ (e : Seat × PlayerSlot). e.1) p in
    let ready =
      all-Perm (λ player. player.status == PlayerStatus.ready) (values r.state.players_by_seat)
        (values reordered) shown in
    let counted : len r.state.players_by_seat ≡ len reordered = len-Perm p in
    (
      rw (ready, counted) refl,
      rw
          (
            broadcast_connection_changed-fanout seat connected player r there,
            broadcast_connection_changed-fanout seat connected player r' there',
          )
          (Perm.append (Perm.refl r.world.sent) (fanout-Perm _ _ _ shown)),
    )
