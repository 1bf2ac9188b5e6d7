-- ===== src/Room/Invariant/Update.antt =====
-- The changes that handlers make to the tables keep the invariant.
use mathlib.Core.Option.{some-injective}
use gb_mahjong_server_rust.Prelude.{
  ◌≡◌, refl, inl, inr, Bool, Option, none, some, String, ◌==◌, string_eq, nat_eq, arith,
  Option-cases, Bool-cases,
}
use gb_mahjong_server_rust.HashMap.{HashMap, get, insert, remove}
use gb_mahjong_server_rust.HashMap.Laws.{get-insert, get-remove}
use gb_mahjong_server_rust.Proto.Client.{Seat, PlayerStatus, seat_eq, player_status_eq}
use gb_mahjong_server_rust.World.{ConnectionHandle}
use gb_mahjong_server_rust.Room.State.{PlayerSlot, RoomState}
use gb_mahjong_server_rust.Room.Seating.{is_all_ready, set_status, update_phase, set_auto_play}
use gb_mahjong_server_rust.Room.Reconnect.{forget_connection, attach, detach, drop_connection}
use gb_mahjong_server_rust.Room.Invariant.{IsWellFormed}
use gb_mahjong_server_rust.Room.Invariant.Slots.{replace_slot, keep_status}

module _ (s : RoomState) (v : IsWellFormed s) where
  IsRouted : HashMap String String → Type 0
  IsRouted c =
      (connection_id user_id : String)
      → get connection_id c ≡ some user_id
      → (seat' : Seat) × (get user_id s.user_to_seat ≡ some seat')

  remove-IsRouted :
      (connection_id : String) (c : HashMap String String)
      → IsRouted c
      → IsRouted (remove connection_id c)
  unfolding IsRouted
  remove-IsRouted connection_id c routed connection_id' user_id e =
      routed connection_id' user_id (ground (arith, get-remove connection_id connection_id' c))

  forget_connection-IsRouted :
      (old : Option String) (c : HashMap String String)
      → IsRouted c
      → IsRouted (forget_connection old c)
  forget_connection-IsRouted none c routed = routed
  forget_connection-IsRouted (some connection_id) c routed = remove-IsRouted connection_id c routed

  insert-IsRouted :
      (connection_id user_id : String) (seat : Seat) (c : HashMap String String)
      → get user_id s.user_to_seat ≡ some seat
      → IsRouted c
      → IsRouted (insert connection_id user_id c)
  unfolding IsRouted
  insert-IsRouted connection_id user_id seat c owner routed connection_id' user_id' e =
      elim (Bool-cases (connection_id == connection_id')) [
        | inl here ↦
            (seat, rw (← some-injective user_id user_id' (rw (get-insert, here) at e)) owner)
        | inr there ↦ routed connection_id' user_id' (rw (get-insert, there) at e)
      ]

  pub attach-IsWellFormed :
      (connection : ConnectionHandle) (seat : Seat) (p : PlayerSlot)
      → get seat s.players_by_seat ≡ some p
      → IsWellFormed (attach connection seat p s)
  unfolding attach IsRouted
  attach-IsWellFormed connection seat p h =
      keep_status s v seat p _ h
        (record { user = refl; own_seat = refl; token = refl; identified = refl; reachable = refl })
        _ refl
        (insert-IsRouted connection.connection_id p.user_id seat _ (v.filed seat p h).owner
          (forget_connection-IsRouted p.connection_id s.connection_to_user v.routed))

  pub detach-IsWellFormed :
      (seat : Seat) (p : PlayerSlot)
      → get seat s.players_by_seat ≡ some p
      → IsWellFormed (detach seat p s)
  unfolding detach
  detach-IsWellFormed seat p h =
      keep_status s v seat p _ h
        (record { user = refl; own_seat = refl; token = refl; identified = refl; reachable = refl })
        s.connection_to_user refl v.routed

  pub set_auto_play-IsWellFormed :
      (seat : Seat) (enabled : Bool) (p : PlayerSlot)
      → get seat s.players_by_seat ≡ some p
      → IsWellFormed (set_auto_play seat enabled p s)
  unfolding set_auto_play
  set_auto_play-IsWellFormed seat enabled p h =
      let f = v.filed seat p h in
      keep_status s v seat p _ h
        (record {
          user = refl;
          own_seat = refl;
          token = refl;
          identified = f.identified;
          reachable = f.reachable;
        })
        s.connection_to_user refl v.routed

  pub drop_connection-IsWellFormed :
      (connection_id : String) → IsWellFormed (drop_connection connection_id s)
  unfolding drop_connection IsRouted
  drop_connection-IsWellFormed connection_id = record {
    seated = v.seated;
    filed = v.filed;
    routed = remove-IsRouted connection_id s.connection_to_user v.routed;
    distinct = v.distinct;
    phased = unfold is_all_ready in v.phased;
    table_size = v.table_size;
  }

  pub set_status-IsWellFormed :
      (seat : Seat) (status : PlayerStatus) → IsWellFormed (update_phase (set_status seat status s))
  unfolding set_status update_phase
  set_status-IsWellFormed seat status = elim (Option-cases (get seat s.players_by_seat)) [
    | inl e ↦
        rw (e, set_status)
          (record {
            seated = v.seated;
            filed = v.filed;
            routed = v.routed;
            distinct = v.distinct;
            phased = refl;
            table_size = v.table_size;
          })
    | inr (p, h) ↦
        let f = v.filed seat p h in
        rw (h, set_status)
          (replace_slot s v seat p (record p { status = status }) h
            (record {
              user = refl;
              own_seat = refl;
              token = refl;
              identified = f.identified;
              reachable = f.reachable;
            })
            s.connection_to_user _ v.routed refl)
  ]
