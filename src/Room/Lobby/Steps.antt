-- ===== src/Room/Lobby/Steps.antt =====
-- What coming, getting ready, returning and leaving do to the lobby (src/room.rs: handle_join,
-- handle_ready, handle_resume, handle_disconnect).
use mathlib.Core.Option.{none-ne-some}
use gb_mahjong_server_rust.Prelude.{
  ◌≡◌, refl, sym, ap, ◌∙◌, inl, inr, none, some, String, ◌==◌, string_eq, if◌then◌else◌,
  Option-cases,
}
use gb_mahjong_server_rust.HashMap.{get}
use gb_mahjong_server_rust.Proto.Client.{
  Seat, PlayerStatus, RejectCode, SyncReason, JoinRoomRequest, ReadyRequest, ResumeSessionRequest,
  seat_eq,
}
use gb_mahjong_server_rust.World.{ConnectionHandle}
use gb_mahjong_server_rust.Room.State.{PlayerSlot, RoomState, Room, seat_for_connection, round_id}
use gb_mahjong_server_rust.Room.Seating.{
  set_status, update_phase, handle_join, mark_ready, handle_ready, is_all_ready,
}
use gb_mahjong_server_rust.Room.Seating.Cases.{join_cases, ready_cases, resume_cases}
use gb_mahjong_server_rust.Room.Seating.Renumber.{
  broadcast_sync_state-Renumbers, send_reject_to_connection-Renumbers, respond_join-Renumbers,
  refuse_resume-Renumbers, admit-Renumbers, accept_resume-Renumbers, leave-Renumbers,
}
use gb_mahjong_server_rust.Room.Readiness.{set_status_seated}
use gb_mahjong_server_rust.Room.Reconnect.{
  drop_connection, refuse_resume, handle_resume, handle_disconnect,
}
use gb_mahjong_server_rust.Room.Invariant.{IsWellFormed}
use gb_mahjong_server_rust.Room.Lobby.{Member, sit, change_of, return, go_away}
use gb_mahjong_server_rust.Room.Lobby.View.{view, view-Renumbers, seat_held_by-view, free_seat-view}
use gb_mahjong_server_rust.Room.Lobby.Tables.{
  seat_player-view, attach-view, leave-view, change-view, seat_for_connection-slot, seated_token,
}

-- A handler takes the lobby of a well-formed room where the lobby's own step takes it.
module _ (r : Room) (v : IsWellFormed r.state) where
  abbrev s : RoomState
  s = r.state

  pub handle_join-view :
      (request_id : String) (connection : ConnectionHandle) (request : JoinRoomRequest)
      → view (handle_join request_id connection request r).state
        ≡ sit request.user_id connection.connection_id (view s)
  unfolding sit
  handle_join-view request_id connection request =
      let held = seat_held_by-view s v request.user_id in
      join_cases
        (λ (r' : Room). view r'.state ≡ sit request.user_id connection.connection_id (view s)) r
        request_id connection request
        (λ seat found.
          view-Renumbers s (respond_join-Renumbers request_id connection _ _ _ _ _ r)
          ∙ sym (rw (held ∙ found, sit) refl))
        (λ fresh full.
          view-Renumbers s (respond_join-Renumbers request_id connection _ _ _ _ _ r)
          ∙ sym (rw (held ∙ fresh, sit, free_seat-view s ∙ full) refl))
        (λ seat fresh free.
          view-Renumbers _ (admit-Renumbers request_id connection request seat r)
          ∙ seat_player-view s v request connection seat fresh free)

  pub handle_ready-view :
      (request_id connection_id : String) (request : ReadyRequest)
      → view (handle_ready request_id connection_id request r).state
        ≡ change_of connection_id
            (λ (m : Member). record m {
              status = if request.ready then PlayerStatus.ready else PlayerStatus.joined;
            })
            (view s)
  unfolding change_of mark_ready update_phase round_id seat_for_connection
  handle_ready-view request_id connection_id request =
      ready_cases (λ (r' : Room). view r'.state ≡ change_of connection_id mark (view s)) r
        request_id connection_id request
        (λ unknown.
          view-Renumbers s (send_reject_to_connection-Renumbers connection_id request_id _ _ 0 0 r)
          ∙ sym (rw (unknown, change_of) refl))
        (λ seat found.
          let (p, there) = seat_for_connection-slot s v connection_id seat found in
          marked seat p found there)
    where
      status : PlayerStatus
      status = if request.ready then PlayerStatus.ready else PlayerStatus.joined

      mark : Member → Member
      mark m = record m { status = status }

      marked :
          (seat : Seat) (p : PlayerSlot)
          → seat_for_connection s connection_id ≡ some seat
          → get seat s.players_by_seat ≡ some p
          → view (mark_ready seat request.ready r).state ≡ change_of connection_id mark (view s)
      marked seat p found there =
          view-Renumbers (update_phase (set_status seat status s)) (
            broadcast_sync_state-Renumbers
              (if is_all_ready (set_status seat status s)
                then SyncReason.round_start
                else SyncReason.server_resync)
              (record r { state = update_phase (set_status seat status s) }))
          ∙ ap (λ (s' : RoomState). view (update_phase s'))
              (set_status_seated seat status p s there)
          ∙ change-view s v connection_id mark seat p (record p { status = status }) found there
              refl

  pub handle_resume-view :
      (request_id : String) (connection : ConnectionHandle) (request : ResumeSessionRequest)
      → view (handle_resume request_id connection request r).state
        ≡ return request.user_id request.resume_token connection.connection_id (view s)
  unfolding return
  handle_resume-view request_id connection request =
      let held = seat_held_by-view s v request.user_id in
      resume_cases Result r request_id connection request
        (λ unknown. refused _ _ ∙ sym (rw (held ∙ unknown, return) refl))
        (λ seat found gone.
          let (p, there, owner) = v.seated request.user_id seat found in
          absurd (none-ne-some p (sym gone ∙ there)))
        (λ seat player found there other.
          let (same, token) = seated_token s v request.user_id seat player found there in
          let wrong = ap (λ u. u == request.resume_token) (sym token) ∙ other in
          refused _ _ ∙ sym (rw (held ∙ found, return, wrong) refl))
        (λ seat player found there right.
          let (same, token) = seated_token s v request.user_id seat player found there in
          view-Renumbers _ (accept_resume-Renumbers connection seat player r)
          ∙ attach-view s v connection seat player request.resume_token there right
          ∙ ap (λ u. return u request.resume_token connection.connection_id (view s)) same)
    where
      Result : Room → Type 0
      Result r' =
          view r'.state
          ≡ return request.user_id request.resume_token connection.connection_id (view s)

      refused :
          (reject_code : RejectCode) (message : String)
          → view (refuse_resume request_id connection request reject_code message r).state ≡ view s
      refused reject_code message =
          view-Renumbers s
            (refuse_resume-Renumbers request_id connection request reject_code message r)

  pub handle_disconnect-view :
      (connection_id : String)
      → view (handle_disconnect connection_id r).state ≡ go_away connection_id (view s)
  unfolding handle_disconnect go_away seat_for_connection
  handle_disconnect-view connection_id =
      elim (Option-cases (get connection_id s.connection_to_user)) [
        | inl e ↦
            let nobody : seat_for_connection s connection_id ≡ none =
              rw (e, seat_for_connection) refl in
            rw (e, handle_disconnect) (sym (rw (nobody, go_away) refl))
        | inr (user_id, e) ↦
            let (seat, found) = v.routed connection_id user_id e in
            let (p, there, owner) = v.seated user_id seat found in
            let known : seat_for_connection s connection_id ≡ some seat =
              rw (e, seat_for_connection) found in
            rw (e, handle_disconnect, found, there)
              (view-Renumbers _
                  (leave-Renumbers seat p (record r { state = drop_connection connection_id s }))
                ∙ leave-view s v connection_id seat p known there)
      ]
