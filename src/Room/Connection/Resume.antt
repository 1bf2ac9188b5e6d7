-- ===== src/Room/Connection/Resume.antt =====
-- Coming back (src/room.rs: handle_resume after handle_disconnect).
use gb_mahjong_server_rust.Prelude.{
  ◌≡◌, ◌≢◌, refl, sym, ap, ◌∙◌, none, some, true, false, String, string_eq, eq_self, eq_iff, arith,
  subst,
}
use mathlib.Core.Option.{some-injective}
use gb_mahjong_server_rust.HashMap.{get, HashMap}
use gb_mahjong_server_rust.HashMap.Laws.{get-remove, get-insert}
use gb_mahjong_server_rust.Proto.Client.{Seat, ResumeSessionRequest, seat_eq}
use gb_mahjong_server_rust.World.{ConnectionHandle}
use gb_mahjong_server_rust.Room.State.{Room, RoomState, PlayerSlot}
use gb_mahjong_server_rust.Room.Invariant.{IsWellFormed}
use gb_mahjong_server_rust.Room.Reconnect.{
  handle_disconnect, handle_resume, drop_connection, detach, attach, accept_resume,
  forget_connection,
}
use gb_mahjong_server_rust.Room.Seating.Renumber.{
  Renumbers, leave-Renumbers, accept_resume-Renumbers,
}
use gb_mahjong_server_rust.Room.Connection.Lost.{handle_disconnect-unknown}

-- The player as seen from a connection.
abbrev pub reattached : ConnectionHandle → PlayerSlot → PlayerSlot
reattached connection player = record player {
  connection_id = some connection.connection_id;
  connected = true;
  outbound_tx = some connection.outbound_tx;
}

-- `handle_resume` with the right token.
accepted :
    (request_id : String) (connection : ConnectionHandle) (request : ResumeSessionRequest)
    (seat : Seat) (player : PlayerSlot) (r : Room)
    → get request.user_id r.state.user_to_seat ≡ some seat
    → get seat r.state.players_by_seat ≡ some player
    → player.resume_token ≡ request.resume_token
    → handle_resume request_id connection request r ≡ accept_resume connection seat player r
unfolding handle_resume
accepted request_id connection request seat player r found there same =
    rw (found, handle_resume, there, same, eq_self request.resume_token) refl

get-attach :
    (connection : ConnectionHandle) (seat : Seat) (player : PlayerSlot) (s : RoomState)
    → (get seat (attach connection seat player s).players_by_seat
        ≡ some (reattached connection player))
      × (get connection.connection_id (attach connection seat player s).connection_to_user
          ≡ some player.user_id)
unfolding attach
get-attach connection seat player s = (
  get-insert seat seat (reattached connection player) s.players_by_seat ∙ rw (eq_self seat),
  get-insert connection.connection_id connection.connection_id player.user_id
        (forget_connection player.connection_id s.connection_to_user)
      ∙ rw (eq_self connection.connection_id),
)

-- What a resume leaves, for a player that the room finds.
resumed :
    (request_id : String) (connection : ConnectionHandle) (request : ResumeSessionRequest)
    (seat : Seat) (player : PlayerSlot) (r : Room)
    → get request.user_id r.state.user_to_seat ≡ some seat
    → get seat r.state.players_by_seat ≡ some player
    → player.resume_token ≡ request.resume_token
    → Renumbers
        (attach connection seat player r.state)
        (handle_resume request_id connection request r).state
resumed request_id connection request seat player r found there same =
    subst (λ (r' : Room). Renumbers (attach connection seat player r.state) r'.state)
      (sym (accepted request_id connection request seat player r found there same))
      (accept_resume-Renumbers connection seat player r)

-- The state that losing a seated player's connection leaves.
pub left :
    (connection_id user_id : String) (seat : Seat) (player : PlayerSlot) (r : Room)
    → get connection_id r.state.connection_to_user ≡ some user_id
    → get user_id r.state.user_to_seat ≡ some seat
    → get seat r.state.players_by_seat ≡ some player
    → Renumbers
        (detach seat player (drop_connection connection_id r.state))
        (handle_disconnect connection_id r).state
unfolding handle_disconnect
left connection_id user_id seat player r known found there =
    rw (known, handle_disconnect, found, there)
      (leave-Renumbers seat player (record r { state = drop_connection connection_id r.state }))

-- A player of a well-formed room who loses the connection and resumes on any other, with the token of
-- the slot, has the same slot as before, with the score, the status and the auto-play setting, but for
-- the new connection and its channel. All users keep their seats, and the new connection stands for
-- the user.
pub handle_resume-handle_disconnect :
    (request_id : String) (connection : ConnectionHandle) (request : ResumeSessionRequest)
    (connection_id : String) (seat : Seat) (player : PlayerSlot) (r : Room)
    → IsWellFormed r.state
    → get connection_id r.state.connection_to_user ≡ some request.user_id
    → get request.user_id r.state.user_to_seat ≡ some seat
    → get seat r.state.players_by_seat ≡ some player
    → player.resume_token ≡ request.resume_token
    → let r' = handle_resume request_id connection request (handle_disconnect connection_id r) in
      (get seat r'.state.players_by_seat ≡ some (reattached connection player))
      × (r'.state.user_to_seat ≡ r.state.user_to_seat)
      × (get connection.connection_id r'.state.connection_to_user ≡ some request.user_id)
unfolding detach drop_connection attach
handle_resume-handle_disconnect request_id connection request connection_id seat player r v known
      found there same =
    let r1 : Room = handle_disconnect connection_id r in
    let away : PlayerSlot = record player {
      connected = false;
      connection_id = none;
      outbound_tx = none;
    } in
    let (n, e) = left connection_id request.user_id seat player r known found there in
    let found' : get request.user_id r1.state.user_to_seat ≡ some seat =
      ap (λ (s : RoomState). get request.user_id s.user_to_seat) e ∙ found in
    let there' : get seat r1.state.players_by_seat ≡ some away =
      ap (λ (s : RoomState). get seat s.players_by_seat) e
      ∙ get-insert seat seat away r.state.players_by_seat
      ∙ rw (eq_self seat) in
    let (m, e') = resumed request_id connection request seat away r1 found' there' same in
    let (slot, route) = get-attach connection seat away r1.state in
    let (p, here, mine) = v.seated request.user_id seat found in
    let own : player.user_id ≡ request.user_id =
      ap (λ (q : PlayerSlot). q.user_id) (some-injective player p (sym there ∙ here)) ∙ mine in
    (
      ap (λ (s : RoomState). get seat s.players_by_seat) e' ∙ slot,
      ap (λ (s : RoomState). s.user_to_seat) e' ∙ ap (λ (s : RoomState). s.user_to_seat) e,
      ap (λ (s : RoomState). get connection.connection_id s.connection_to_user) e'
          ∙ route
          ∙ ap some own,
    )

attach-forgets :
    (connection : ConnectionHandle) (seat : Seat) (player : PlayerSlot) (s : RoomState)
    (old : String)
    → player.connection_id ≡ some old
    → connection.connection_id ≢ old
    → get old (attach connection seat player s).connection_to_user ≡ none
unfolding attach
attach-forgets connection seat player s old held other =
    let m : HashMap String String = forget_connection player.connection_id s.connection_to_user in
    let gone : get old m ≡ none =
      ap (λ o. get old (forget_connection o s.connection_to_user)) held
      ∙ get-remove old old s.connection_to_user
      ∙ rw (eq_self old) in
    get-insert connection.connection_id old player.user_id m
    ∙ ground (arith, eq_iff connection.connection_id old)

-- When a user resumes on a new connection while the old one still holds the slot, the old
-- connection's disconnect, which comes late, does nothing: the player stays on the new connection.
pub handle_disconnect-handle_resume :
    (request_id : String) (connection : ConnectionHandle) (request : ResumeSessionRequest)
    (old : String) (seat : Seat) (player : PlayerSlot) (r : Room)
    → get request.user_id r.state.user_to_seat ≡ some seat
    → get seat r.state.players_by_seat ≡ some player
    → player.resume_token ≡ request.resume_token
    → player.connection_id ≡ some old
    → connection.connection_id ≢ old
    → handle_disconnect old (handle_resume request_id connection request r)
      ≡ handle_resume request_id connection request r
handle_disconnect-handle_resume request_id connection request old seat player r found there same
      held other =
    let (n, e) = resumed request_id connection request seat player r found there same in
    handle_disconnect-unknown old (handle_resume request_id connection request r) (
      ap (λ (s : RoomState). get old s.connection_to_user) e
      ∙ attach-forgets connection seat player r.state old held other)
