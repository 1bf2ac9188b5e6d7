-- ===== src/Ws/Frame.antt =====
-- src/ws.rs: handle_client_frame, what a connection does with a decoded frame.
use gb_mahjong_server_rust.Prelude.{String, Option, none, some}
use gb_mahjong_server_rust.Proto.Client.{RejectCode, ClientPayload, ClientFrame}
use gb_mahjong_server_rust.World.{ConnectionHandle}
use gb_mahjong_server_rust.Manager.{
  RoomManager, dispatch_join, dispatch_ready, dispatch_resume, dispatch_player_action,
}
use gb_mahjong_server_rust.App.{AppState}
use gb_mahjong_server_rust.Ws.Session.{
  ConnectionSession, handle, send_frame, build_pong, build_action_rejected,
}

-- The connection answers with an error of its own.
unfoldable pub refuse :
    String
    → RejectCode
    → String
    → ConnectionSession
    → AppState
    → Option (ConnectionSession × AppState)
unfolding build_action_rejected
refuse request_id reject_code message connection app =
    let (frame, app') = build_action_rejected request_id reject_code message app in
    elim (send_frame connection frame app') [ none ↦ none | some app'' ↦ some (connection, app'') ]

-- A call of the rooms' manager with the connection's handle.
unfoldable pub dispatch :
    (ConnectionHandle → RoomManager → RoomManager)
    → ConnectionSession
    → AppState
    → Option (ConnectionSession × AppState)
dispatch call connection app = elim (handle connection) [
  | none ↦ none
  | some h ↦ some (connection, record app { room_manager = call h app.room_manager })
]

abbrev pub enter_room : String → ConnectionSession → ConnectionSession
enter_room room_id connection = record connection { current_room_id = some room_id }

unfoldable pub handle_payload :
    String
    → Option ClientPayload
    → ConnectionSession
    → AppState
    → Option (ConnectionSession × AppState)
unfolding build_pong
handle_payload request_id (some (ClientPayload.heartbeat heartbeat)) connection app =
    let (pong, app') = build_pong request_id heartbeat app in
    elim (send_frame connection pong app') [ none ↦ none | some app'' ↦ some (connection, app'') ]
handle_payload request_id (some (ClientPayload.join_room join_room)) connection app =
    dispatch (λ h. dispatch_join request_id h join_room) (enter_room join_room.room_id connection)
      app
handle_payload request_id (some (ClientPayload.ready ready)) connection app =
    elim connection.current_room_id [
      | none ↦
          refuse request_id RejectCode.not_in_room "connection must join a room before ReadyRequest"
            connection app
      | some room_id ↦ dispatch (λ h. dispatch_ready room_id request_id h ready) connection app
    ]
handle_payload request_id (some (ClientPayload.resume_session resume)) connection app =
    dispatch (λ h. dispatch_resume request_id h resume) (enter_room resume.room_id connection) app
handle_payload request_id (some (ClientPayload.player_action action)) connection app =
    dispatch (λ h. dispatch_player_action request_id h action)
      (enter_room action.room_id connection) app
handle_payload request_id none connection app =
    refuse request_id RejectCode.invalid_request "ClientFrame.payload must be set" connection app

-- `none` is a panic.
unfoldable pub handle_client_frame :
    ConnectionSession → ClientFrame → AppState → Option (ConnectionSession × AppState)
unfolding handle_payload
handle_client_frame connection frame app =
    handle_payload frame.request_id frame.payload connection app
