-- ===== src/Tests/Leaving.antt =====
-- The theorem about a lost connection, applied to ann's.
use gb_mahjong_server_rust.Prelude.{◌≡◌, ◌⊎◌, none, some, String, string_eq}
use gb_mahjong_server_rust.HashMap.{get}
use gb_mahjong_server_rust.Proto.Client.{Seat, seat_eq}
use gb_mahjong_server_rust.Engine.{noop}
use gb_mahjong_server_rust.Room.State.{PlayerSlot}
use gb_mahjong_server_rust.Room.Reconnect.{handle_disconnect}
use gb_mahjong_server_rust.Room.Invariant.Run.{run_room_task-IsWellFormed}
use gb_mahjong_server_rust.Room.Connection.Away.{IsAway, handle_disconnect-outcome}
use gb_mahjong_server_rust.Tests.Data.{quiet_world, joined_one, ann_room}

handle_disconnect-outcome_example :
    ((get "conn-1" ann_room.state.connection_to_user ≡ none)
      × (handle_disconnect "conn-1" ann_room ≡ ann_room))
    ⊎ ((user_id : String) × (seat : Seat) × (player : PlayerSlot) × (get "conn-1"
            ann_room.state.connection_to_user
          ≡ some user_id)
        × (get user_id ann_room.state.user_to_seat ≡ some seat)
        × (get seat ann_room.state.players_by_seat ≡ some player)
        × IsAway "conn-1" seat player ann_room (handle_disconnect "conn-1" ann_room))
handle_disconnect-outcome_example =
    handle_disconnect-outcome "conn-1" ann_room
      (run_room_task-IsWellFormed "alpha" noop quiet_world joined_one)
