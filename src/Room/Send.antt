-- ===== src/Room/Send.antt =====
-- How a room sends (src/room.rs: broadcast_sync_state, broadcast_connection_changed,
-- send_reject_to_connection).
pub mod Cases
pub mod Delivery
pub mod Fanout
use gb_mahjong_server_rust.Prelude.{
  ℕ, Bool, Option, none, some, List, [], ◌∷◌, String, string_eq, if◌then◌else◌,
}
use gb_mahjong_server_rust.HashMap.{get, values}
use gb_mahjong_server_rust.Proto.Client.{Seat, RejectCode, SyncReason, ServerFrame, seat_eq}
use gb_mahjong_server_rust.World.{ConnectionSender, World, send}
use gb_mahjong_server_rust.Room.State.{PlayerSlot, RoomState, Room, seat_order, allocate_event_seq}
use gb_mahjong_server_rust.Room.Frames.{
  build_action_rejected, build_player_connection_changed, build_sync_state_for,
}

-- One round of the loop of `broadcast_sync_state`.
unfoldable pub sync_seat : RoomState → ℕ → SyncReason → Seat → World → World
sync_seat s event_seq reason seat w = elim (get seat s.players_by_seat) [
  | none ↦ w
  | some player ↦
      if player.connected
      then elim player.outbound_tx [
        | none ↦ w
        | some tx ↦
            let (frame, w') = build_sync_state_for s seat event_seq reason w in send tx frame w'
      ]
      else w
]

unfoldable pub sync_seats : RoomState → ℕ → SyncReason → List Seat → World → World
sync_seats s event_seq reason [] w = w
sync_seats s event_seq reason (seat ∷ seats) w =
    sync_seats s event_seq reason seats (sync_seat s event_seq reason seat w)

unfoldable pub broadcast_sync_state : SyncReason → Room → Room
unfolding allocate_event_seq
broadcast_sync_state reason r =
    let (event_seq, s) = allocate_event_seq r.state in
    record { state = s; world = sync_seats s event_seq reason seat_order r.world }

-- One round of the loop of `broadcast_connection_changed`.
unfoldable pub send_player : ServerFrame → PlayerSlot → World → World
send_player frame player w =
    if player.connected then elim player.outbound_tx [ none ↦ w | some tx ↦ send tx frame w ] else w

unfoldable pub send_players : ServerFrame → List PlayerSlot → World → World
send_players frame [] w = w
send_players frame (player ∷ players) w = send_players frame players (send_player frame player w)

-- The part of `broadcast_connection_changed` after its early return.
unfoldable pub announce : Seat → Bool → PlayerSlot → Room → Room
unfolding allocate_event_seq
announce seat connected player r =
    let (event_seq, s) = allocate_event_seq r.state in
    let (frame, w) =
      build_player_connection_changed event_seq s.room_id s.match_id player.user_id seat
        player.status connected r.world in
    record { state = s; world = send_players frame (values s.players_by_seat) w }

unfoldable pub broadcast_connection_changed : Seat → Bool → Room → Room
broadcast_connection_changed seat connected r = elim (get seat r.state.players_by_seat) [
  | none ↦ r
  | some player ↦ announce seat connected player r
]

-- The channel of the player that the connection stands for.
unfoldable pub reject_target : RoomState → String → Option ConnectionSender
reject_target s connection_id = elim (get connection_id s.connection_to_user) [
  | none ↦ none
  | some user_id ↦ elim (get user_id s.user_to_seat) [
    | none ↦ none
    | some seat ↦ elim (get seat s.players_by_seat) [
      | none ↦ none
      | some player ↦ player.outbound_tx
    ]
  ]
]

-- The part of `send_reject_to_connection` after its early returns.
unfoldable pub reject_on : ConnectionSender → String → RejectCode → String → ℕ → ℕ → Room → Room
unfolding allocate_event_seq
reject_on tx request_id reject_code message expected_event_seq action_window_id r =
    let (event_seq, s) = allocate_event_seq r.state in
    let frame =
      build_action_rejected event_seq request_id reject_code message expected_event_seq
        action_window_id in
    record { state = s; world = send tx frame r.world }

unfoldable pub send_reject_to_connection :
    String → String → RejectCode → String → ℕ → ℕ → Room → Room
send_reject_to_connection connection_id request_id reject_code message expected_event_seq
      action_window_id r =
    elim (reject_target r.state connection_id) [
      | none ↦ r
      | some tx ↦ reject_on tx request_id reject_code message expected_event_seq action_window_id r
    ]
