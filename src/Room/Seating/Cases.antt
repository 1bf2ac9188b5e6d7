-- ===== src/Room/Seating/Cases.antt =====
-- To prove something of what a handler leaves, prove it on each of its branches.
use gb_mahjong_server_rust.Prelude.{
  ◌≡◌, Bool, false, none, some, inl, inr, String, ◌==◌, string_eq, Option-cases, Bool-cases, eq_iff,
}
use gb_mahjong_server_rust.HashMap.{get}
use gb_mahjong_server_rust.Proto.Client.{
  Seat, RejectCode, SyncReason, JoinRoomRequest, ReadyRequest, ResumeSessionRequest, seat_eq,
}
use gb_mahjong_server_rust.World.{ConnectionHandle}
use gb_mahjong_server_rust.Room.State.{PlayerSlot, Room, next_open_seat, seat_for_connection}
use gb_mahjong_server_rust.Room.Send.{broadcast_sync_state, send_reject_to_connection}
use gb_mahjong_server_rust.Room.Seating.{
  respond_join, admit, handle_join, mark_ready, handle_ready, set_auto_play,
  handle_auto_play_toggle,
}
use gb_mahjong_server_rust.Room.Reconnect.{
  refuse_resume, accept_resume, handle_resume, drop_connection, leave, handle_disconnect,
}

module _ {ℓ} (P : Room → Type ℓ) (r : Room) where
  pub join_cases :
      (request_id : String) (connection : ConnectionHandle) (request : JoinRoomRequest)
      → ((seat : Seat)
          → get request.user_id r.state.user_to_seat ≡ some seat
          → P (
              respond_join request_id connection false RejectCode.already_joined seat ""
                "user already joined this room" r))
      → (get request.user_id r.state.user_to_seat ≡ none
          → next_open_seat r.state ≡ none
          → P (
              respond_join request_id connection false RejectCode.seat_unavailable Seat.unspecified
                "" "room is full" r))
      → ((seat : Seat)
          → get request.user_id r.state.user_to_seat ≡ none
          → next_open_seat r.state ≡ some seat
          → P (admit request_id connection request seat r))
      → P (handle_join request_id connection request r)
  unfolding handle_join
  join_cases request_id connection request already full admitted =
      elim (Option-cases (get request.user_id r.state.user_to_seat)) [
        | inr (seat, e) ↦ rw (e, handle_join) (already seat e)
        | inl new ↦ elim (Option-cases (next_open_seat r.state)) [
          | inl none_left ↦ rw (new, handle_join, none_left) (full new none_left)
          | inr (seat, free) ↦ rw (new, handle_join, free) (admitted seat new free)
        ]
      ]

  pub ready_cases :
      (request_id connection_id : String) (request : ReadyRequest)
      → (seat_for_connection r.state connection_id ≡ none
          → P (
              send_reject_to_connection connection_id request_id RejectCode.not_in_room
                "connection is not registered in this room" 0 0 r))
      → ((seat : Seat)
          → seat_for_connection r.state connection_id ≡ some seat
          → P (mark_ready seat request.ready r))
      → P (handle_ready request_id connection_id request r)
  unfolding handle_ready
  ready_cases request_id connection_id request unknown seated =
      elim (Option-cases (seat_for_connection r.state connection_id)) [
        | inl e ↦ rw (e, handle_ready) (unknown e)
        | inr (seat, e) ↦ rw (e, handle_ready) (seated seat e)
      ]

  pub resume_cases :
      (request_id : String) (connection : ConnectionHandle) (request : ResumeSessionRequest)
      → (get request.user_id r.state.user_to_seat ≡ none
          → P (
              refuse_resume request_id connection request RejectCode.not_in_room
                "user is not known in this room" r))
      → ((seat : Seat)
          → get request.user_id r.state.user_to_seat ≡ some seat
          → get seat r.state.players_by_seat ≡ none
          → P (
              refuse_resume request_id connection request RejectCode.internal_error
                "room state lost player seat mapping" r))
      → ((seat : Seat) (player : PlayerSlot)
          → get request.user_id r.state.user_to_seat ≡ some seat
          → get seat r.state.players_by_seat ≡ some player
          → (player.resume_token == request.resume_token) ≡ false
          → P (
              refuse_resume request_id connection request RejectCode.auth_failed
                "resume token does not match room state" r))
      → ((seat : Seat) (player : PlayerSlot)
          → get request.user_id r.state.user_to_seat ≡ some seat
          → get seat r.state.players_by_seat ≡ some player
          → player.resume_token ≡ request.resume_token
          → P (accept_resume connection seat player r))
      → P (handle_resume request_id connection request r)
  unfolding handle_resume
  resume_cases request_id connection request unknown lost denied accepted =
      elim (Option-cases (get request.user_id r.state.user_to_seat)) [
        | inl e ↦ rw (e, handle_resume) (unknown e)
        | inr (seat, e) ↦ elim (Option-cases (get seat r.state.players_by_seat)) [
          | inl gone ↦ rw (e, handle_resume, gone) (lost seat e gone)
          | inr (player, there) ↦ elim (Bool-cases (player.resume_token == request.resume_token)) [
            | inl same ↦
                rw (e, handle_resume, there, same)
                  (accepted seat player e there ((eq_iff _ _).0 same))
            | inr other ↦ rw (e, handle_resume, there, other) (denied seat player e there other)
          ]
        ]
      ]

  pub disconnect_cases :
      (connection_id : String)
      → (get connection_id r.state.connection_to_user ≡ none → P r)
      → ((user_id : String)
          → get connection_id r.state.connection_to_user ≡ some user_id
          → P (record r { state = drop_connection connection_id r.state }))
      → ((user_id : String) (seat : Seat) (player : PlayerSlot)
          → get connection_id r.state.connection_to_user ≡ some user_id
          → get user_id r.state.user_to_seat ≡ some seat
          → get seat r.state.players_by_seat ≡ some player
          → P (leave seat player (record r { state = drop_connection connection_id r.state })))
      → P (handle_disconnect connection_id r)
  unfolding handle_disconnect
  disconnect_cases connection_id unknown unseated seated =
      elim (Option-cases (get connection_id r.state.connection_to_user)) [
        | inl e ↦ rw (e, handle_disconnect) (unknown e)
        | inr (user_id, e) ↦ elim (Option-cases (get user_id r.state.user_to_seat)) [
          | inl gone ↦ rw (e, handle_disconnect, gone) (unseated user_id e)
          | inr (seat, found) ↦ elim (Option-cases (get seat r.state.players_by_seat)) [
            | inl lost ↦ rw (e, handle_disconnect, found, lost) (unseated user_id e)
            | inr (player, there) ↦
                rw (e, handle_disconnect, found, there) (seated user_id seat player e found there)
          ]
        ]
      ]

  pub toggle_cases :
      (seat : Seat) (enabled : Bool)
      → (get seat r.state.players_by_seat ≡ none → P r)
      → ((player : PlayerSlot)
          → get seat r.state.players_by_seat ≡ some player
          → P (
              broadcast_sync_state SyncReason.server_resync
                (record r { state = set_auto_play seat enabled player r.state })))
      → P (handle_auto_play_toggle seat enabled r)
  unfolding handle_auto_play_toggle
  toggle_cases seat enabled unknown seated =
      elim (Option-cases (get seat r.state.players_by_seat)) [
        | inl e ↦ rw (e, handle_auto_play_toggle) (unknown e)
        | inr (player, e) ↦ rw (e, handle_auto_play_toggle) (seated player e)
      ]
