-- ===== src/Ws/Safety.antt =====
-- A connection's task never panics (src/ws.rs: ConnectionSession::handle, handle_socket).
use gb_mahjong_server_rust.Prelude.{
  ℕ, ◌≡◌, refl, ◌⊎◌, inl, inr, Option, none, some, true, false, List, [], ◌∷◌, String, Option-cases,
}
use gb_mahjong_server_rust.Proto.Client.{RejectCode, ClientPayload, ClientFrame, ServerFrame}
use gb_mahjong_server_rust.World.{ConnectionSender, ConnectionHandle}
use gb_mahjong_server_rust.World
use gb_mahjong_server_rust.Manager.{RoomManager}
use gb_mahjong_server_rust.App.{AppState}
use gb_mahjong_server_rust.Ws.Session.{
  ConnectionSession, handle, send_frame, put_world, build_pong, build_action_rejected,
}
use gb_mahjong_server_rust.Ws.Frame.{
  refuse, dispatch, enter_room, handle_payload, handle_client_frame,
}
use gb_mahjong_server_rust.Ws.Socket.{
  SocketEvent, SocketTask, Flow, continue, break, proceed, receive_outbound, socket_step,
  socket_loop, open_socket,
}

-- The session has its channel and its number still.
abbrev pub IsOwn : String → ConnectionSender → ConnectionSession → Type 0
IsOwn connection_id tx session =
    (session.connection_id ≡ connection_id) × (session.outbound_tx ≡ some tx)

module _ (connection_id : String) (tx : ConnectionSender) where
  -- A frame was dealt with, and the session has its channel still.
  abbrev Survives : Option (ConnectionSession × AppState) → Type 0
  Survives o =
      (session : ConnectionSession) × (app : AppState) × (o ≡ some (session, app))
      × IsOwn connection_id tx session

  module _ (session : ConnectionSession) (own : IsOwn connection_id tx session) where
    has_handle : (h : ConnectionHandle) × (handle session ≡ some h)
    unfolding handle
    has_handle = (
      record { connection_id = session.connection_id; outbound_tx = tx },
      rw (own.1, handle) refl,
    )

    sends :
        (frame : ServerFrame) (app : AppState)
        → (app' : AppState) × (send_frame session frame app ≡ some app')
    unfolding send_frame
    sends frame app =
        let (h, e) = has_handle in
        (put_world (World.send_frame h frame app.room_manager.world) app, rw (e, send_frame) refl)

    refuse-Survives :
        (request_id : String) (reject_code : RejectCode) (message : String) (app : AppState)
        → Survives (refuse request_id reject_code message session app)
    unfolding refuse
    refuse-Survives request_id reject_code message app =
        let (app', e) =
          sends (build_action_rejected request_id reject_code message app).0
            (build_action_rejected request_id reject_code message app).1 in
        (session, app', rw (e, refuse) refl, own)

    dispatch-Survives :
        (call : ConnectionHandle → RoomManager → RoomManager) (app : AppState)
        → Survives (dispatch call session app)
    unfolding dispatch
    dispatch-Survives call app =
        let (h, e) = has_handle in
        (session, record app { room_manager = call h app.room_manager }, rw (e, dispatch) refl, own)

  handle_payload-Survives :
      (request_id : String) (payload : Option ClientPayload) (session : ConnectionSession)
      (app : AppState)
      → IsOwn connection_id tx session
      → Survives (handle_payload request_id payload session app)
  unfolding handle_payload
  handle_payload-Survives request_id none session app own = refuse-Survives session own _ _ _ app
  handle_payload-Survives request_id (some (ClientPayload.heartbeat heartbeat)) session app own =
      let (app', e) =
        sends session own (build_pong request_id heartbeat app).0
          (build_pong request_id heartbeat app).1 in
      (session, app', rw (e, handle_payload) refl, own)
  handle_payload-Survives request_id (some (ClientPayload.join_room join_room)) session app own =
      dispatch-Survives (enter_room join_room.room_id session) own _ app
  handle_payload-Survives request_id (some (ClientPayload.ready ready)) session app own =
      elim (Option-cases session.current_room_id) [
        | inl e ↦ rw (e, handle_payload) (refuse-Survives session own _ _ _ app)
        | inr (room_id, e) ↦ rw (e, handle_payload) (dispatch-Survives session own _ app)
      ]
  handle_payload-Survives request_id (some (ClientPayload.resume_session resume)) session app own =
      dispatch-Survives (enter_room resume.room_id session) own _ app
  handle_payload-Survives request_id (some (ClientPayload.player_action action)) session app own =
      dispatch-Survives (enter_room action.room_id session) own _ app

  -- The task goes on or ends its loop, with its own session.
  abbrev pub IsSafe : Flow → Type 0
  IsSafe flow =
      (task : SocketTask) × (app : AppState) × ((flow ≡ continue task app)
        ⊎ (flow ≡ break task app))
      × IsOwn connection_id tx task.session

  proceed-IsSafe :
      (task : SocketTask) (o : Option (ConnectionSession × AppState))
      → Survives o
      → IsSafe (proceed task o)
  unfolding proceed
  proceed-IsSafe task o (session, app, e, own) =
      (record task { session = session }, app, inl (rw e refl), own)

  receive_outbound-IsSafe :
      (is_sent : _) (frame : Option ServerFrame) (task : SocketTask) (app : AppState)
      → IsOwn connection_id tx task.session
      → IsSafe (receive_outbound is_sent frame task app)
  unfolding receive_outbound
  receive_outbound-IsSafe is_sent none task app own = (task, app, inl refl, own)
  receive_outbound-IsSafe true (some frame) task app own = (_, app, inl refl, own)
  receive_outbound-IsSafe false (some frame) task app own = (_, app, inr refl, own)

  module _ (decode : List ℕ → Option ClientFrame) where
    pub socket_step-IsSafe :
        (event : SocketEvent) (task : SocketTask) (app : AppState)
        → IsOwn connection_id tx task.session
        → IsSafe (socket_step decode event task app)
    unfolding socket_step handle_client_frame
    socket_step-IsSafe (SocketEvent.outbound is_sent) task app own =
        receive_outbound-IsSafe is_sent _ task app own
    socket_step-IsSafe (SocketEvent.binary payload) task app own =
        elim (Option-cases (decode payload)) [
          | inl e ↦
              rw (e, socket_step)
                (proceed-IsSafe task _ (refuse-Survives task.session own _ _ _ app))
          | inr (frame, e) ↦
              rw (e, socket_step)
                (proceed-IsSafe task _
                  (handle_payload-Survives frame.request_id frame.payload task.session app own))
        ]
    socket_step-IsSafe SocketEvent.text task app own =
        proceed-IsSafe task _ (refuse-Survives task.session own _ _ _ app)
    socket_step-IsSafe (SocketEvent.ping true) task app own = (task, app, inl refl, own)
    socket_step-IsSafe SocketEvent.pong task app own = (task, app, inl refl, own)
    socket_step-IsSafe _ task app own = (task, app, inr refl, own)

    loop-IsSafe :
        (events : List SocketEvent) (task : SocketTask) (app : AppState)
        → IsOwn connection_id tx task.session
        → IsSafe (socket_loop decode events task app)
    unfolding socket_loop
    loop-IsSafe [] task app own = (task, app, inl refl, own)
    loop-IsSafe (event ∷ events) task app own =
        let (task', app', ends, own') = socket_step-IsSafe event task app own in
        elim ends [
          | inl e ↦ rw (e, socket_loop) (loop-IsSafe events task' app' own')
          | inr e ↦ (task', app', inr (rw (e, socket_loop) refl), own')
        ]

-- Whatever arrives on a new connection's socket, its task never panics: after any events it goes on or
-- has ended its loop, and its session has the connection's number and channel still.
pub socket_loop-IsSafe :
    (decode : List ℕ → Option ClientFrame) (events : List SocketEvent) (tx : ConnectionSender)
    (app : AppState)
    → let (task, app') = open_socket tx app in
      IsSafe task.session.connection_id tx (socket_loop decode events task app')
unfolding open_socket
socket_loop-IsSafe decode events tx app =
    let (task, app') = open_socket tx app in
    loop-IsSafe task.session.connection_id tx decode events task app' (refl, refl)
