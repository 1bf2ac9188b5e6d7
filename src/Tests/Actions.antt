-- ===== src/Tests/Actions.antt =====
-- Actions of players with good and with bad numbers (src/room.rs: handle_player_action).
use gb_mahjong_server_rust.Prelude.{◌≡◌, refl, some, [], ◌∷◌}
use gb_mahjong_server_rust.Prelude.Int.{pos}
use gb_mahjong_server_rust.Proto.Client.{
  Seat, RejectCode, Action, claim, PlayerActionRequest, claim_kind_enum,
}
use gb_mahjong_server_rust.Room.Action.{handle_player_action}
use gb_mahjong_server_rust.Room.Action.Guards.{
  guard, payload_guard, Answered, handle_player_action-Answered,
}
use gb_mahjong_server_rust.Tests.Data.{ann_room, discard_tile}
use gb_mahjong_server_rust.Tests.Facts.{ann_target, ann_at}

abbrev bad_discard : PlayerActionRequest
bad_discard = discard_tile (pos 99)

bad_tile : payload_guard bad_discard.action ≡ some RejectCode.invalid_tile
bad_tile = refl

handle_player_action-Answered_example :
    Answered 1 "r2" "conn-1" bad_discard Seat.east ann_room
      (guard ann_room.state bad_discard)
      (handle_player_action "r2" "conn-1" bad_discard ann_room)
handle_player_action-Answered_example =
    handle_player_action-Answered 1 "r2" "conn-1" bad_discard Seat.east ann_room ann_target ann_at

abbrev pung : Action
pung = claim (record {
  claim_kind = pos 2;
  target_tile = pos 7;
  consume_tiles = pos 7 ∷ pos 7 ∷ [];
  source_seat = pos 2;
  source_event_seq = 12;
})

abbrev claim_request : PlayerActionRequest
claim_request = record (discard_tile (pos 5)) { action_window_id = 4; action = some pung }
