-- ===== src/Tests/Witnesses.antt =====
-- The theorems about the server, applied to runs of it.
use gb_mahjong_server_rust.Prelude.{
  ◌≡◌, refl, ◌↔◌, arith, some, length, ◌+◌, ◌*◌, ◌≤◌, All, string_eq, nat_eq,
}
use gb_mahjong_server_rust.Prelude.Int.{pos}
use gb_mahjong_server_rust.HashMap.{get}
use gb_mahjong_server_rust.Proto.Client.{Seat, GamePhase, RejectCode, SyncReason, seat_eq}
use gb_mahjong_server_rust.Engine.{noop}
use gb_mahjong_server_rust.Room.State.{new, seat_order}
use gb_mahjong_server_rust.Room.Send.{broadcast_sync_state}
use gb_mahjong_server_rust.Room.Send.Delivery.{Delivers, notices, broadcast_sync_state-Delivers}
use gb_mahjong_server_rust.Room.Seating.{handle_ready, handle_join}
use gb_mahjong_server_rust.Room.Reconnect.{handle_resume, handle_disconnect}
use gb_mahjong_server_rust.Room.Action.{run_room_task}
use gb_mahjong_server_rust.Room.Admission.{JoinOutcome, handle_join-outcome}
use gb_mahjong_server_rust.Room.Connection.Lost.{handle_disconnect-twice}
use gb_mahjong_server_rust.Room.Connection.Resume.{
  reattached, handle_resume-handle_disconnect, handle_disconnect-handle_resume,
}
use gb_mahjong_server_rust.Room.Connection.Token.{ResumeOutcome, handle_resume-outcome}
use gb_mahjong_server_rust.Room.Invariant.{IsWellFormed}
use gb_mahjong_server_rust.Room.Invariant.Run.{run_room_task-IsWellFormed}
use gb_mahjong_server_rust.Room.Parse.Agreement.{carried, parse_client_values_agree}
use gb_mahjong_server_rust.Room.Parse.{
  parse_client_tile_value, parse_client_seat_value, parse_client_claim_kind_value,
  parse_client_win_type_value,
}
use gb_mahjong_server_rust.Room.Readiness.{TableTurns, status_for, handle_ready-Delivers}
use gb_mahjong_server_rust.Room.Phase.{HasReady, phase_dealing}
use gb_mahjong_server_rust.Room.Sequence.Order.{IsSequenced}
use gb_mahjong_server_rust.Room.Sequence.Run.{run_room_task-IsSequenced}
use gb_mahjong_server_rust.Tests.Data.{
  quiet_world, empty_room, ann_room, conn, join_as, resume_as, ready_request, joined_one,
  joined_two,
}
use gb_mahjong_server_rust.Tests.Facts.{
  ann, ann_seat, ann_route, ann_slot, ann_at, other_connection,
}

ann_room-IsWellFormed : IsWellFormed ann_room.state
ann_room-IsWellFormed = run_room_task-IsWellFormed "alpha" noop quiet_world joined_one

empty_room-IsSequenced : IsSequenced empty_room
unfolding new
empty_room-IsSequenced = (omega arith, omega arith)

run_room_task-IsSequenced_example :
    IsSequenced (run_room_task joined_two empty_room)
    × ((run_room_task joined_two empty_room).state.next_event_seq
        ≤ empty_room.state.next_event_seq + 3 * length joined_two)
unfolding new
run_room_task-IsSequenced_example =
    run_room_task-IsSequenced joined_two empty_room empty_room-IsSequenced (omega arith)

handle_join-outcome_example :
    JoinOutcome "r2"
      (conn "conn-9" 9)
      (join_as "bob")
      ann_room
      (handle_join "r2" (conn "conn-9" 9) (join_as "bob") ann_room)
handle_join-outcome_example =
    handle_join-outcome "r2" (conn "conn-9" 9) (join_as "bob") ann_room ann_room-IsWellFormed

handle_resume-outcome_example :
    ResumeOutcome "r2"
      (conn "conn-9" 9)
      (resume_as "ann" "resume-alpha-ann")
      ann_room
      (handle_resume "r2" (conn "conn-9" 9) (resume_as "ann" "resume-alpha-ann") ann_room)
handle_resume-outcome_example =
    handle_resume-outcome "r2" (conn "conn-9" 9) (resume_as "ann" "resume-alpha-ann") ann_room
      ann_room-IsWellFormed

handle_resume-handle_disconnect_example :
    let request = resume_as "ann" "resume-alpha-ann" in
    let r' = handle_resume "r2" (conn "conn-9" 9) request (handle_disconnect "conn-1" ann_room) in
    (get Seat.east r'.state.players_by_seat ≡ some (reattached (conn "conn-9" 9) ann))
    × (r'.state.user_to_seat ≡ ann_room.state.user_to_seat)
    × (get "conn-9" r'.state.connection_to_user ≡ some "ann")
handle_resume-handle_disconnect_example =
    handle_resume-handle_disconnect "r2" (conn "conn-9" 9) (resume_as "ann" "resume-alpha-ann")
      "conn-1" Seat.east ann ann_room ann_room-IsWellFormed ann_route ann_seat ann_slot refl

handle_disconnect-handle_resume_example :
    let request = resume_as "ann" "resume-alpha-ann" in
    handle_disconnect "conn-1" (handle_resume "r2" (conn "conn-9" 9) request ann_room)
    ≡ handle_resume "r2" (conn "conn-9" 9) request ann_room
handle_disconnect-handle_resume_example =
    handle_disconnect-handle_resume "r2" (conn "conn-9" 9) (resume_as "ann" "resume-alpha-ann")
      "conn-1" Seat.east ann ann_room ann_seat ann_slot refl refl other_connection

handle_disconnect-twice_example :
    handle_disconnect "conn-1" (handle_disconnect "conn-1" ann_room)
    ≡ handle_disconnect "conn-1" ann_room
handle_disconnect-twice_example = handle_disconnect-twice "conn-1" ann_room

phase_dealing_example :
    (ann_room.state.phase ≡ GamePhase.dealing) ↔ All (HasReady ann_room.state) seat_order
phase_dealing_example = phase_dealing ann_room.state ann_room-IsWellFormed

broadcast_sync_state-Delivers_example :
    let r' = broadcast_sync_state SyncReason.server_resync ann_room in
    Delivers ann_room.world
      (notices r'.state ann_room.state.next_event_seq SyncReason.server_resync seat_order)
      r'.world
broadcast_sync_state-Delivers_example =
    broadcast_sync_state-Delivers SyncReason.server_resync ann_room

parse_client_values_agree_example :
    (parse_client_tile_value (pos 44)
      ≡ carried 44 RejectCode.invalid_tile "unknown tile enum value " (pos 44))
    × (parse_client_seat_value (pos 44)
        ≡ carried 5 RejectCode.invalid_request "unknown seat enum value " (pos 44))
    × (parse_client_claim_kind_value (pos 44)
        ≡ carried 6 RejectCode.invalid_request "unknown claim kind enum value " (pos 44))
    × (parse_client_win_type_value (pos 44)
        ≡ carried 5 RejectCode.invalid_request "unknown win type enum value " (pos 44))
parse_client_values_agree_example = parse_client_values_agree (pos 44)

handle_ready-Delivers_example :
    let r' = handle_ready "r2" "conn-1" ready_request ann_room in
    (get Seat.east r'.state.players_by_seat
      ≡ some (record ann { status = status_for ready_request }))
    × (reason : SyncReason) × TableTurns r'.state reason
    × Delivers ann_room.world
        (notices r'.state ann_room.state.next_event_seq reason seat_order)
        r'.world
handle_ready-Delivers_example =
    handle_ready-Delivers "r2" "conn-1" ready_request Seat.east ann ann_room ann_room-IsWellFormed
      ann_at ann_slot
