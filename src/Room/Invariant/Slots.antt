-- ===== src/Room/Invariant/Slots.antt =====
-- The invariant after one slot is replaced.
use mathlib.Core.Path.{subst₂}
use mathlib.Core.Option.{some-injective}
use gb_mahjong_server_rust.Prelude.{
  ◌≡◌, refl, sym, ◌∙◌, ap, subst, inl, inr, some, String, ◌==◌, string_eq, nat_eq, eq_iff, is_some,
  if◌then◌else◌, Bool-cases,
}
use gb_mahjong_server_rust.HashMap.{HashMap, get, insert}
use gb_mahjong_server_rust.HashMap.Laws.{get-insert, insert-HasDistinctKeys}
use gb_mahjong_server_rust.HashMap.Values.{len-insert_old, all-insert_old}
use gb_mahjong_server_rust.Proto.Client.{Seat, GamePhase, PlayerStatus, seat_eq, player_status_eq}
use gb_mahjong_server_rust.Room.State.{PlayerSlot, RoomState}
use gb_mahjong_server_rust.Room.Seating.{resume_token_for, is_all_ready}
use gb_mahjong_server_rust.Room.Seating.Renumber.{Renumbers}
use gb_mahjong_server_rust.Room.Invariant.{IsFiled, IsWellFormed}

-- A slot that stands for the same user at the same seat as `p`.
pub record Replaces (p p' : PlayerSlot) : Type 0 where
  pub user : p'.user_id ≡ p.user_id
  pub own_seat : p'.seat ≡ p.seat
  pub token : p'.resume_token ≡ p.resume_token
  pub identified : is_some p'.connection_id ≡ p'.connected
  pub reachable : is_some p'.outbound_tx ≡ p'.connected

module _ (s : RoomState) (v : IsWellFormed s) where
  pub Renumbers-IsWellFormed : (s' : RoomState) → Renumbers s s' → IsWellFormed s'
  Renumbers-IsWellFormed s' (n, e) = subst IsWellFormed (sym e) renumbered
    where
      renumbered : IsWellFormed (record s { next_event_seq = n })
      renumbered = record {
        seated = v.seated;
        filed = v.filed;
        routed = v.routed;
        distinct = v.distinct;
        phased = unfold is_all_ready in v.phased;
        table_size = v.table_size;
      }

  module _ (seat : Seat) (p p' : PlayerSlot) (h : get seat s.players_by_seat ≡ some p)
      (same : Replaces p p') where
    user :
        (seat' : Seat) (q : PlayerSlot)
        → seat ≡ seat'
        → get seat' s.players_by_seat ≡ some q
        → p'.user_id ≡ q.user_id
    user seat' q e found =
        let one : p ≡ q =
          some-injective p q (sym h ∙ ap (λ x. get x s.players_by_seat) e ∙ found) in
        same.user ∙ ap (λ (x : PlayerSlot). x.user_id) one

    refiled : IsFiled s.room_id s.user_to_seat seat p'
    refiled =
        let f = v.filed seat p h in
        record {
          owner = rw same.user f.owner;
          own_seat = same.own_seat ∙ f.own_seat;
          real = f.real;
          token = same.token ∙ f.token ∙ ap (resume_token_for s.room_id) (sym same.user);
          identified = same.identified;
          reachable = same.reachable;
        }

    IsFiled-mono :
        (seat' : Seat) (q : PlayerSlot)
        → get seat' (insert seat p' s.players_by_seat) ≡ some q
        → IsFiled s.room_id s.user_to_seat seat' q
    IsFiled-mono seat' q e = elim (Bool-cases (seat == seat')) [
      | inl here ↦
          subst₂ (IsFiled s.room_id s.user_to_seat) ((eq_iff seat seat').0 here)
            (some-injective p' q (rw (get-insert, here) at e)) refiled
      | inr there ↦ v.filed seat' q (rw (get-insert, there) at e)
    ]

    pub replace_slot :
        (c : HashMap String String) (phase : GamePhase)
        → ((connection_id user_id : String)
            → get connection_id c ≡ some user_id
            → (seat' : Seat) × (get user_id s.user_to_seat ≡ some seat'))
        → let t : RoomState = record s {
          connection_to_user = c;
          players_by_seat = insert seat p' s.players_by_seat;
          phase = phase;
        } in
          phase ≡ (if is_all_ready t then GamePhase.dealing else GamePhase.lobby) → IsWellFormed t
    replace_slot c phase routed phased = record {
      seated = λ user_id seat' e.
          let (q, found, owner) = v.seated user_id seat' e in
          elim (Bool-cases (seat == seat')) [
            | inl here ↦ (
              p',
              rw (get-insert, here) refl,
              user seat' q ((eq_iff seat seat').0 here) found ∙ owner,
            )
            | inr there ↦ (q, rw (get-insert, there) found, owner)
          ];
      filed = IsFiled-mono;
      routed = routed;
      distinct = insert-HasDistinctKeys seat p' s.players_by_seat v.distinct;
      phased = phased;
      table_size = v.table_size;
    }

    is_all_ready_old :
        (c : HashMap String String)
        → p'.status ≡ p.status
        → is_all_ready (record s {
          connection_to_user = c;
          players_by_seat = insert seat p' s.players_by_seat;
        })
          ≡ is_all_ready s
    unfolding is_all_ready
    is_all_ready_old c same_status = rw (
      len-insert_old seat p p' s.players_by_seat h,
      all-insert_old (λ player. player.status == PlayerStatus.ready) seat p p' s.players_by_seat h
          (ap (λ x. x == PlayerStatus.ready) same_status),
    )

    -- Another slot for the same user, with the status that it had.
    pub keep_status :
        (c : HashMap String String)
        → p'.status ≡ p.status
        → ((connection_id user_id : String)
            → get connection_id c ≡ some user_id
            → (seat' : Seat) × (get user_id s.user_to_seat ≡ some seat'))
        → IsWellFormed (record s {
          connection_to_user = c;
          players_by_seat = insert seat p' s.players_by_seat;
        })
    keep_status c same_status routed = replace_slot c s.phase routed (
        v.phased
        ∙ ap (λ b. if b then GamePhase.dealing else GamePhase.lobby)
            (sym (is_all_ready_old c same_status)))
