-- ===== src/Room/Admission.antt =====
-- Who gets a seat (src/room.rs: handle_join, next_open_seat).
use gb_mahjong_server_rust.Prelude.{
  ◌≡◌, ◌≢◌, refl, ap, ◌∙◌, ◌⊎◌, inl, inr, none, some, false, String, [], ◌∷◌, ◌++◌, string_eq,
  eq_iff, eq_self, arith, wrapping_add,
}
use gb_mahjong_server_rust.HashMap.{get, len}
use gb_mahjong_server_rust.HashMap.Laws.{get-insert}
use gb_mahjong_server_rust.Proto.Enum.{as_i32}
use gb_mahjong_server_rust.Proto.Client.{
  Seat, RejectCode, JoinRoomRequest, ServerPayload, seat_eq, seat_enum, reject_code_enum,
}
use gb_mahjong_server_rust.World.{ConnectionHandle, send_frame, send}
use gb_mahjong_server_rust.Room.State.{Room, RoomState, next_open_seat}
use gb_mahjong_server_rust.Room.Frames.{build_join_room_response}
use gb_mahjong_server_rust.Room.Invariant.{IsWellFormed}
use gb_mahjong_server_rust.Room.Invariant.Count.{next_open_seat_free, next_open_seat_full}
use gb_mahjong_server_rust.Room.Invariant.Join.{unspecified_free}
use gb_mahjong_server_rust.Room.Seating.{
  handle_join, admit, respond_join, seat_player, new_player, resume_token_for,
}
use gb_mahjong_server_rust.Room.Seating.Cases.{join_cases}
use gb_mahjong_server_rust.Room.Seating.Renumber.{admit-Renumbers}

-- The connection was refused a seat, under the room's next number, and the room is otherwise as it was.
abbrev pub IsDeclined :
    String → ConnectionHandle → RejectCode → Seat → String → Room → Room → Type 0
IsDeclined request_id connection reject_code seat message r r' =
    (r'.state ≡ record r.state { next_event_seq = wrapping_add r.state.next_event_seq 1 })
    × (r'.world.sent
        ≡ r.world.sent
          ++ (
            connection.outbound_tx,
            record {
              event_seq = r.state.next_event_seq;
              payload = some (
                  ServerPayload.join_room (record {
                    request_id = request_id;
                    accepted = false;
                    reject_code = as_i32 reject_code;
                    room_id = r.state.room_id;
                    match_id = r.state.match_id;
                    seat = as_i32 seat;
                    connection_id = connection.connection_id;
                    resume_token = "";
                    room_config = some r.state.room_config;
                    message = message;
                    latest_event_seq = r.state.next_event_seq;
                  }));
            },
          )
            ∷ [])

respond_join-IsDeclined :
    (request_id : String) (connection : ConnectionHandle) (reject_code : RejectCode) (seat : Seat)
    (message : String) (r : Room)
    → IsDeclined request_id connection reject_code seat message r
        (respond_join request_id connection false reject_code seat "" message r)
unfolding respond_join send_frame send build_join_room_response
respond_join-IsDeclined request_id connection reject_code seat message r = (refl, refl)

-- The user got the seat, which was free, on this connection, which stands for the user now; the other
-- seats, users and connections are as they were.
abbrev pub IsSeated : ConnectionHandle → JoinRoomRequest → Seat → Room → Room → Type 0
IsSeated connection request seat r r' =
    (get seat r.state.players_by_seat ≡ none)
    × (get seat r'.state.players_by_seat
        ≡ some
            (new_player request connection seat (resume_token_for r.state.room_id request.user_id)))
    × (get request.user_id r'.state.user_to_seat ≡ some seat)
    × (get connection.connection_id r'.state.connection_to_user ≡ some request.user_id)
    × ((other : Seat)
        → seat ≢ other
        → get other r'.state.players_by_seat ≡ get other r.state.players_by_seat)
    × ((other : String)
        → request.user_id ≢ other
        → get other r'.state.user_to_seat ≡ get other r.state.user_to_seat)
    × ((other : String)
        → connection.connection_id ≢ other
        → get other r'.state.connection_to_user ≡ get other r.state.connection_to_user)

admit-IsSeated :
    (request_id : String) (connection : ConnectionHandle) (request : JoinRoomRequest) (seat : Seat)
    (r : Room)
    → get seat r.state.players_by_seat ≡ none
    → IsSeated connection request seat r (admit request_id connection request seat r)
unfolding seat_player
admit-IsSeated request_id connection request seat r free =
    let s = r.state in
    let player = new_player request connection seat (resume_token_for s.room_id request.user_id) in
    let (n, e) = admit-Renumbers request_id connection request seat r in
    let players = λ (t : RoomState). t.players_by_seat in
    let users = λ (t : RoomState). t.user_to_seat in
    let routes = λ (t : RoomState). t.connection_to_user in
    (
      free,
      ap (λ (t : RoomState). get seat t.players_by_seat) e
          ∙ get-insert seat seat player s.players_by_seat
          ∙ rw (eq_self seat),
      ap (λ (t : RoomState). get request.user_id t.user_to_seat) e
          ∙ get-insert request.user_id request.user_id seat s.user_to_seat
          ∙ rw (eq_self request.user_id),
      ap (λ (t : RoomState). get connection.connection_id t.connection_to_user) e
          ∙ get-insert connection.connection_id connection.connection_id request.user_id
              s.connection_to_user
          ∙ rw (eq_self connection.connection_id),
      λ other apart.
          ap (λ (t : RoomState). get other t.players_by_seat) e
          ∙ get-insert seat other player s.players_by_seat
          ∙ ground (arith, eq_iff seat other),
      λ other apart.
          ap (λ (t : RoomState). get other t.user_to_seat) e
          ∙ get-insert request.user_id other seat s.user_to_seat
          ∙ ground (arith, eq_iff request.user_id other),
      λ other apart.
          ap (λ (t : RoomState). get other t.connection_to_user) e
          ∙ get-insert connection.connection_id other request.user_id s.connection_to_user
          ∙ ground (arith, eq_iff connection.connection_id other),
    )

-- The three ways a join ends.
abbrev pub JoinOutcome : String → ConnectionHandle → JoinRoomRequest → Room → Room → Type 0
JoinOutcome request_id connection request r r' =
    ((seat : Seat) × (get request.user_id r.state.user_to_seat ≡ some seat)
      × IsDeclined request_id connection RejectCode.already_joined seat
          "user already joined this room" r r')
    ⊎ ((get request.user_id r.state.user_to_seat ≡ none)
        × (len r.state.players_by_seat ≡ 4)
        × IsDeclined request_id connection RejectCode.seat_unavailable Seat.unspecified
            "room is full" r r')
    ⊎ ((seat : Seat) × (get request.user_id r.state.user_to_seat ≡ none)
        × (len r.state.players_by_seat ≢ 4)
        × (next_open_seat r.state ≡ some seat)
        × IsSeated connection request seat r r')

-- In a well-formed room, a user who has no seat gets the first free one, with the connection, exactly
-- while fewer than four players are seated. Every other seat, the seat of every other user and the user
-- behind every other connection stay as they were; if the joining connection stood for another user
-- before, it now stands for the newcomer. A user who has a seat, and one who finds four players, is
-- declined with one answer on the own connection, which changes nothing in the room but the next
-- number.
pub handle_join-outcome :
    (request_id : String) (connection : ConnectionHandle) (request : JoinRoomRequest) (r : Room)
    → IsWellFormed r.state
    → JoinOutcome request_id connection request r (handle_join request_id connection request r)
handle_join-outcome request_id connection request r v =
    let full = next_open_seat_full r.state v.distinct (unspecified_free r.state v) in
    join_cases (JoinOutcome request_id connection request r) r request_id connection request
      (λ seat found. inl (seat, found, respond_join-IsDeclined request_id connection _ seat _ r))
      (λ new none_left. inr (
        inl (
          new,
          full.0 none_left,
          respond_join-IsDeclined request_id connection _ Seat.unspecified _ r,
        )))
      (λ seat new free. inr (
        inr (
          seat,
          new,
          (λ four. let none_left = full.1 four in cc),
          free,
          admit-IsSeated request_id connection request seat r
              (next_open_seat_free r.state seat free).0,
        )))
