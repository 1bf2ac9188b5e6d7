-- ===== src/Ws/Connections/Kept.antt =====
-- What a round of a connection keeps of the shared state (src/ws.rs: handle_socket,
-- handle_client_frame).
use gb_mahjong_server_rust.Prelude.{
  ℕ, ◌≡◌, refl, inl, inr, true, false, Option, none, some, List, [], ◌∷◌, String, nat_eq,
  Option-cases,
}
use gb_mahjong_server_rust.Proto.Client.{RejectCode, ClientPayload, ClientFrame, ServerFrame}
use gb_mahjong_server_rust.World
use gb_mahjong_server_rust.World.{ConnectionHandle, World, send}
use gb_mahjong_server_rust.Room.Extends.{Extends, Extends-refl}
use gb_mahjong_server_rust.Manager.{RoomManager}
use gb_mahjong_server_rust.Manager.Registry.{IsRegistered}
use gb_mahjong_server_rust.Manager.Schedule.{
  ManagerStep, manager_step, call_join, call_ready, call_resume, call_player_action,
  manager_step-IsRegistered,
}
use gb_mahjong_server_rust.Manager.Extends.{manager_step-Extends}
use gb_mahjong_server_rust.App.{AppState}
use gb_mahjong_server_rust.Ws.Session.{
  ConnectionSession, handle, send_frame, build_pong, build_action_rejected,
}
use gb_mahjong_server_rust.Ws.Frame.{
  refuse, dispatch, enter_room, handle_payload, handle_client_frame,
}
use gb_mahjong_server_rust.Ws.Socket.{
  SocketEvent, SocketTask, Flow, continue, break, panic, proceed, receive_outbound, socket_step,
}
use gb_mahjong_server_rust.Ws.Wire.{sent_of}

-- The registry is in order, no connection got a name, and what was sent is still there.
pub record Kept (app app' : AppState) : Type 0 where
  pub registered : IsRegistered app'.room_manager
  pub same_count : app'.next_connection_id ≡ app.next_connection_id
  pub extends : Extends (sent_of app) (sent_of app')

module _ (app : AppState) (v : IsRegistered app.room_manager) where
  abbrev KeptBy : Option (ConnectionSession × AppState) → Type 0
  KeptBy none = Unit
  KeptBy (some (session, app')) = Kept app app'

  -- Only the world changes, and the numbers of the connection's own frames.
  world-Kept :
      (app' : AppState)
      → (w : World) → app'.room_manager ≡ record app.room_manager { world = w }
      → app'.next_connection_id ≡ app.next_connection_id
      → Extends (sent_of app) w.sent
      → Kept app app'
  world-Kept app' w same count adds = record {
    registered = rw same (record {
      running = v.running;
      registered = v.registered;
      numbered = v.numbered;
      well_formed = v.well_formed;
    });
    same_count = count;
    extends = rw same adds;
  }

  -- A frame of the connection's own on its channel.
  sent-Kept :
      (session : ConnectionSession) (frame : ServerFrame) (before : AppState) (w : World)
      → before.room_manager ≡ record app.room_manager { world = w }
      → before.next_connection_id ≡ app.next_connection_id
      → w.sent ≡ sent_of app
      → KeptBy (elim (send_frame session frame before) [
        | none ↦ none
        | some app' ↦ some (session, app')
      ])
  unfolding send_frame World.send_frame send
  sent-Kept session frame before w same count unsent = elim (Option-cases (handle session)) [
    | inl e ↦ rw (e, send_frame) tt
    | inr (h, e) ↦
        rw (e, send_frame)
          (world-Kept _ (World.send_frame h frame w) (rw same refl) count
            ((h.outbound_tx, frame) ∷ [], rw unsent refl))
  ]

  refuse-Kept :
      (request_id : String) (reject_code : RejectCode) (message : String)
      (session : ConnectionSession)
      → KeptBy (refuse request_id reject_code message session app)
  unfolding refuse build_action_rejected
  refuse-Kept request_id reject_code message session =
      sent-Kept session (build_action_rejected request_id reject_code message app).0
        (build_action_rejected request_id reject_code message app).1 app.room_manager.world refl
        refl refl

  dispatch-Kept :
      (call : ConnectionHandle → RoomManager → RoomManager) (step : ConnectionHandle → ManagerStep)
      (session : ConnectionSession)
      → ((h : ConnectionHandle) → call h app.room_manager ≡ manager_step (step h) app.room_manager)
      → KeptBy (dispatch call session app)
  unfolding dispatch
  dispatch-Kept call step session same = elim (Option-cases (handle session)) [
    | inl e ↦ rw (e, dispatch) tt
    | inr (h, e) ↦
        rw (e, dispatch)
          (record {
            registered = rw (same h) (manager_step-IsRegistered (step h) app.room_manager v);
            same_count = refl;
            extends = rw (same h) (manager_step-Extends app.room_manager (step h));
          })
  ]

  handle_payload-Kept :
      (request_id : String) (payload : Option ClientPayload) (session : ConnectionSession)
      → KeptBy (handle_payload request_id payload session app)
  unfolding handle_payload build_pong World.unix_time_ms manager_step
  handle_payload-Kept request_id none session = refuse-Kept _ _ _ session
  handle_payload-Kept request_id (some (ClientPayload.heartbeat heartbeat)) session =
      sent-Kept session (build_pong request_id heartbeat app).0
        (build_pong request_id heartbeat app).1 _ refl refl refl
  handle_payload-Kept request_id (some (ClientPayload.join_room join_room)) session =
      dispatch-Kept _ (λ h. call_join request_id h join_room) (enter_room join_room.room_id session)
        (λ h. refl)
  handle_payload-Kept request_id (some (ClientPayload.ready ready)) session =
      elim (Option-cases session.current_room_id) [
        | inl e ↦ rw (e, handle_payload) (refuse-Kept _ _ _ session)
        | inr (room_id, e) ↦
            rw (e, handle_payload)
              (dispatch-Kept _ (λ h. call_ready room_id request_id h ready) session (λ h. refl))
      ]
  handle_payload-Kept request_id (some (ClientPayload.resume_session resume)) session =
      dispatch-Kept _ (λ h. call_resume request_id h resume) (enter_room resume.room_id session)
        (λ h. refl)
  handle_payload-Kept request_id (some (ClientPayload.player_action action)) session =
      dispatch-Kept _ (λ h. call_player_action request_id h action)
        (enter_room action.room_id session) (λ h. refl)

  -- What a round leaves.
  abbrev pub FlowKept : SocketTask → Flow → Type 0
  FlowKept task (continue task' app') = Kept app app' × (task'.outbound_rx ≡ task.outbound_rx)
  FlowKept task (break task' app') = Kept app app' × (task'.outbound_rx ≡ task.outbound_rx)
  FlowKept task panic = Unit

  pub Kept-refl : Kept app app
  Kept-refl = record { registered = v; same_count = refl; extends = Extends-refl (sent_of app) }

  proceed-Kept :
      (task : SocketTask) (o : Option (ConnectionSession × AppState))
      → KeptBy o
      → FlowKept task (proceed task o)
  unfolding proceed
  proceed-Kept task none h = tt
  proceed-Kept task (some (session, app')) h = (h, refl)

  receive_outbound-Kept :
      (is_sent : _) (frame : Option ServerFrame) (task : SocketTask)
      → FlowKept task (receive_outbound is_sent frame task app)
  unfolding receive_outbound
  receive_outbound-Kept is_sent none task = (Kept-refl, refl)
  receive_outbound-Kept true (some frame) task = (Kept-refl, refl)
  receive_outbound-Kept false (some frame) task = (Kept-refl, refl)

  pub socket_step-Kept :
      (decode : List ℕ → Option ClientFrame) (event : SocketEvent) (task : SocketTask)
      → FlowKept task (socket_step decode event task app)
  unfolding socket_step handle_client_frame
  socket_step-Kept decode (SocketEvent.outbound is_sent) task = receive_outbound-Kept is_sent _ task
  socket_step-Kept decode (SocketEvent.binary payload) task = elim (Option-cases (decode payload)) [
    | inl e ↦ rw (e, socket_step) (proceed-Kept task _ (refuse-Kept _ _ _ task.session))
    | inr (frame, e) ↦
        rw (e, socket_step)
          (proceed-Kept task _ (handle_payload-Kept frame.request_id frame.payload task.session))
  ]
  socket_step-Kept decode SocketEvent.text task =
      proceed-Kept task _ (refuse-Kept _ _ _ task.session)
  socket_step-Kept decode (SocketEvent.ping true) task = (Kept-refl, refl)
  socket_step-Kept decode SocketEvent.pong task = (Kept-refl, refl)
  socket_step-Kept decode _ task = (Kept-refl, refl)
