-- ===== src/Room/Frames.antt =====
-- The frames that a room sends (src/room.rs: build_join_room_response, build_player_connection_changed,
-- build_action_rejected, build_sync_state_for).
use gb_mahjong_server_rust.Prelude.{
  ℕ, Bool, Option, none, some, List, [], map, filter_map, String, ◌==◌, wrapping_add, if◌then◌else◌,
}
use gb_mahjong_server_rust.HashMap.{get}
use gb_mahjong_server_rust.Proto.Enum.{as_i32}
use gb_mahjong_server_rust.Proto.Client.{
  Seat, Tile, PlayerStatus, RejectCode, SyncReason, RoomConfig, PlayerState, ServerPayload,
  ServerFrame, seat_enum, seat_eq, tile_enum, player_status_enum, reject_code_enum,
  sync_reason_enum, game_phase_enum,
}
use gb_mahjong_server_rust.World.{World, unix_time_ms}
use gb_mahjong_server_rust.Room.State.{
  PlayerSlot, RoomState, seat_order, reconnect_grace_ms, round_id,
}

unfoldable pub build_join_room_response :
    ℕ
    → String
    → Bool
    → RejectCode
    → String
    → String
    → Seat
    → String
    → String
    → Option RoomConfig
    → String
    → ServerFrame
build_join_room_response event_seq request_id accepted reject_code room_id match_id seat
      connection_id resume_token room_config message =
    record {
      event_seq = event_seq;
      payload = some (
          ServerPayload.join_room (record {
            request_id = request_id;
            accepted = accepted;
            reject_code = as_i32 reject_code;
            room_id = room_id;
            match_id = match_id;
            seat = as_i32 seat;
            connection_id = connection_id;
            resume_token = resume_token;
            room_config = room_config;
            message = message;
            latest_event_seq = event_seq;
          }));
    }

-- The clock is read only for a lost connection.
reconnect_deadline : Bool → World → ℕ × World
unfolding unix_time_ms
reconnect_deadline connected w =
    let (now, w') = unix_time_ms w in
    if connected then (0, w) else (wrapping_add now reconnect_grace_ms, w')

unfoldable pub build_player_connection_changed :
    ℕ → String → String → String → Seat → PlayerStatus → Bool → World → ServerFrame × World
unfolding reconnect_deadline
build_player_connection_changed event_seq room_id match_id user_id seat status connected w =
    let (deadline, w') = reconnect_deadline connected w in
    (
      record {
        event_seq = event_seq;
        payload = some (
            ServerPayload.player_connection_changed (record {
              room_id = room_id;
              match_id = match_id;
              user_id = user_id;
              seat = as_i32 seat;
              status = as_i32 status;
              connected = connected;
              reconnect_deadline_unix_ms = deadline;
            }));
      },
      w',
    )

unfoldable pub build_action_rejected : ℕ → String → RejectCode → String → ℕ → ℕ → ServerFrame
build_action_rejected event_seq request_id reject_code message expected_event_seq action_window_id =
    record {
      event_seq = event_seq;
      payload = some (
          ServerPayload.action_rejected (record {
            request_id = request_id;
            reject_code = as_i32 reject_code;
            message = message;
            expected_event_seq = expected_event_seq;
            actual_event_seq = event_seq;
            action_window_id = action_window_id;
          }));
    }

pub player_state : RoomState → PlayerSlot → PlayerState
player_state s player = record {
  user_id = player.user_id;
  display_name = player.display_name;
  seat = as_i32 player.seat;
  status = as_i32 player.status;
  score = player.score;
  is_dealer = player.seat == s.dealer_seat;
  is_connected = player.connected;
  auto_play_enabled = player.auto_play_enabled;
  concealed_tile_count = 0;
  melds = [];
  discards = [];
  flowers = [];
  replacement_draw_count = 0;
}

-- The seated players in the order of the seats.
abbrev pub players_in_order : RoomState → List PlayerSlot
players_in_order s = filter_map (λ seat. get seat s.players_by_seat) seat_order

unfoldable pub build_sync_state_for :
    RoomState → Seat → ℕ → SyncReason → World → ServerFrame × World
unfolding unix_time_ms player_state round_id
build_sync_state_for s recipient_seat event_seq reason w =
    let (now, w') = unix_time_ms w in
    (
      record {
        event_seq = event_seq;
        payload = some (
            ServerPayload.sync_state (record {
              room_id = s.room_id;
              match_id = s.match_id;
              round_id = round_id s;
              reason = as_i32 reason;
              server_time_ms = now;
              snapshot = some (record {
                room_config = some s.room_config;
                phase = as_i32 s.phase;
                self_seat = as_i32 recipient_seat;
                prevailing_wind = as_i32 s.prevailing_wind;
                dealer_seat = as_i32 s.dealer_seat;
                current_turn_seat = as_i32 s.current_turn_seat;
                hand_number = s.hand_number;
                dealer_streak = s.dealer_streak;
                wall_tiles_remaining = s.wall_tiles_remaining;
                dead_wall_tiles_remaining = s.dead_wall_tiles_remaining;
                latest_event_seq = event_seq;
                players = map (player_state s) (players_in_order s);
                self_hand =
                    some (record { concealed_tiles = []; drawn_tile = as_i32 Tile.unspecified });
                active_claim_window = none;
                action_deadline_unix_ms = 0;
              });
            }));
      },
      w',
    )
