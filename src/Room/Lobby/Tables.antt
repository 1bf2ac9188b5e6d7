-- ===== src/Room/Lobby/Tables.antt =====
-- What the updates of a room's tables do to the lobby (src/room.rs: handle_join, handle_resume,
-- handle_disconnect and the changes of one slot).
use mathlib.Core.Path.{ap₂}
use mathlib.Core.Option
use mathlib.Core.Option.{none-ne-some, some-injective}
use gb_mahjong_server_rust.Prelude.{
  ◌≡◌, refl, sym, ap, ◌∙◌, inl, inr, true, Option, none, some, String, ◌==◌, string_eq, eq_iff,
  Option-cases,
}
use gb_mahjong_server_rust.HashMap.{HashMap, get, insert}
use gb_mahjong_server_rust.HashMap.Laws.{get-insert_same}
use gb_mahjong_server_rust.Proto.Client.{Seat, JoinRoomRequest, seat_eq}
use gb_mahjong_server_rust.World.{ConnectionHandle}
use gb_mahjong_server_rust.Room.State.{
  PlayerSlot, RoomState, next_open_seat, seat_for_connection, round_id,
}
use gb_mahjong_server_rust.Room.Seating.{seat_player, resume_token_for}
use gb_mahjong_server_rust.Room.Reconnect.{attach, detach, drop_connection, forget_connection}
use gb_mahjong_server_rust.Room.Invariant.{IsWellFormed}
use gb_mahjong_server_rust.Room.Lobby.{
  Member, Lobby, route, forget, connection_at, sit, change_of, return, go_away,
}
use gb_mahjong_server_rust.Room.Lobby.Routes.{
  seats, seat_for_connection-seats, seats-insert, seats-forget, seats-remove, seats-new,
}
use gb_mahjong_server_rust.Room.Lobby.View.{
  member, members, view, members-insert, members-change, seat_held_by-view, free_seat-view,
}

-- A lobby with other members and routes.
abbrev laid_out : Lobby → (Seat → Option Member) → (String → Option Seat) → Lobby
laid_out l member_at seat_of = record l { member_at = member_at; seat_of = seat_of }

-- The tables that a handler may change, and what the lobby is then.
view-tables :
    (s : RoomState) (players : HashMap Seat PlayerSlot) (users : HashMap String Seat)
    (routes : HashMap String String) {member_at : Seat → Option Member}
    {seat_of : String → Option Seat}
    → members players ≡ member_at
    → seats users routes ≡ seat_of
    → view
        (record s { players_by_seat = players; user_to_seat = users; connection_to_user = routes })
      ≡ laid_out (view s) member_at seat_of
unfolding round_id
view-tables s players users routes e e' =
    ap₂ (laid_out (view s)) e (seat_for_connection-seats _ ∙ e')

module _ (s : RoomState) (v : IsWellFormed s) where
  pub seat_player-view :
      (request : JoinRoomRequest) (connection : ConnectionHandle) (seat : Seat)
      → get request.user_id s.user_to_seat ≡ none
      → next_open_seat s ≡ some seat
      → view (seat_player request connection seat (resume_token_for s.room_id request.user_id) s)
        ≡ sit request.user_id connection.connection_id (view s)
  unfolding seat_player sit
  seat_player-view request connection seat fresh free =
      let user = request.user_id in
      let users = s.user_to_seat in
      rw (seat_held_by-view s v user ∙ fresh, sit, free_seat-view s ∙ free)
        (view-tables s _ _ _ (members-insert s.players_by_seat seat _) (
          seats-insert (insert user seat users) s.connection_to_user connection.connection_id user
          ∙ ap₂ (route connection.connection_id) (get-insert_same user seat users) (
              seats-new users s.connection_to_user user seat fresh v.routed
              ∙ sym (seat_for_connection-seats s))))

  pub attach-view :
      (connection : ConnectionHandle) (seat : Seat) (player : PlayerSlot) (token : String)
      → get seat s.players_by_seat ≡ some player
      → player.resume_token ≡ token
      → view (attach connection seat player s)
        ≡ return player.user_id token connection.connection_id (view s)
  unfolding attach return
  attach-view connection seat player token there same =
      let filed = v.filed seat player there in
      let own : (resume_token_for s.room_id player.user_id == token) ≡ true =
        (eq_iff _ _).1 (sym filed.token ∙ same) in
      let old : connection_at (members s.players_by_seat seat) ≡ player.connection_id =
        ap (λ p. connection_at (Option.map member p)) there in
      rw (seat_held_by-view s v player.user_id ∙ filed.owner, return, own)
        (view-tables s _ s.user_to_seat _
          (members-change s.players_by_seat seat _ player _ there refl)
          (seats-insert s.user_to_seat (forget_connection player.connection_id s.connection_to_user)
              connection.connection_id player.user_id
            ∙ ap₂ (route connection.connection_id) filed.owner (
                seats-forget s.user_to_seat s.connection_to_user player.connection_id
                ∙ ap₂ forget (sym old) (sym (seat_for_connection-seats s)))))

  pub leave-view :
      (connection_id : String) (seat : Seat) (player : PlayerSlot)
      → seat_for_connection s connection_id ≡ some seat
      → get seat s.players_by_seat ≡ some player
      → view (detach seat player (drop_connection connection_id s)) ≡ go_away connection_id (view s)
  unfolding detach drop_connection go_away
  leave-view connection_id seat player found there =
      rw (found, go_away)
        (view-tables s _ s.user_to_seat _
          (members-change s.players_by_seat seat _ player _ there refl)
          (seats-remove s.user_to_seat s.connection_to_user connection_id
            ∙ ap (route connection_id none) (sym (seat_for_connection-seats s))))

  -- A change of one slot that the routes do not show.
  pub change-view :
      (connection_id : String) (change : Member → Member) (seat : Seat)
      (player player' : PlayerSlot)
      → seat_for_connection s connection_id ≡ some seat
      → get seat s.players_by_seat ≡ some player
      → member player' ≡ change (member player)
      → view (record s { players_by_seat = insert seat player' s.players_by_seat })
        ≡ change_of connection_id change (view s)
  unfolding change_of
  change-view connection_id change seat player player' found there changed =
      rw (found, change_of)
        (view-tables s _ s.user_to_seat s.connection_to_user
          (members-change s.players_by_seat seat change player player' there changed)
          (sym (seat_for_connection-seats s)))

  -- The connection that stands for a seat has a player there.
  pub seat_for_connection-slot :
      (connection_id : String) (seat : Seat)
      → seat_for_connection s connection_id ≡ some seat
      → (p : PlayerSlot) × (get seat s.players_by_seat ≡ some p)
  unfolding seat_for_connection
  seat_for_connection-slot connection_id seat found =
      elim (Option-cases (get connection_id s.connection_to_user)) [
        | inl e ↦
            let nobody : seat_for_connection s connection_id ≡ none =
              rw (e, seat_for_connection) refl in
            absurd (none-ne-some seat (sym nobody ∙ found))
        | inr (user_id, e) ↦
            let known : seat_for_connection s connection_id ≡ get user_id s.user_to_seat =
              rw (e, seat_for_connection) refl in
            let (p, there, owner) = v.seated user_id seat (sym known ∙ found) in (p, there)
      ]

  -- The player whom the users' table finds holds the token that the user's name gives.
  pub seated_token :
      (user_id : String) (seat : Seat) (player : PlayerSlot)
      → get user_id s.user_to_seat ≡ some seat
      → get seat s.players_by_seat ≡ some player
      → (player.user_id ≡ user_id) × (player.resume_token ≡ resume_token_for s.room_id user_id)
  seated_token user_id seat player found there =
      let (p, there', owner) = v.seated user_id seat found in
      let same : player.user_id ≡ user_id =
        ap (λ (q : PlayerSlot). q.user_id) (some-injective player p (sym there ∙ there')) ∙ owner in
      (same, (v.filed seat player there).token ∙ ap (resume_token_for s.room_id) same)
