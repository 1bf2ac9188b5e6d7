-- ===== src/Ws/Wire.antt =====
-- What a connection writes on its socket (src/ws.rs: handle_socket, send_server_frame).
use gb_mahjong_server_rust.Prelude.{
  ◌≡◌, refl, inl, inr, Option, none, some, [], ◌∷◌, String, nat_eq, Option-cases,
}
use gb_mahjong_server_rust.Proto.Client.{RejectCode, ClientPayload, ServerFrame}
use gb_mahjong_server_rust.World
use gb_mahjong_server_rust.World.{ConnectionSender, ConnectionHandle, send, unix_time_ms}
use gb_mahjong_server_rust.Room.Extends.{Extends, Sent}
use gb_mahjong_server_rust.Manager.{RoomManager}
use gb_mahjong_server_rust.Manager.Schedule.{
  manager_step, call_join, call_ready, call_resume, call_player_action,
}
use gb_mahjong_server_rust.Manager.Extends.{manager_step-Extends}
use gb_mahjong_server_rust.App.{AppState}
use gb_mahjong_server_rust.Ws.Session.{
  ConnectionSession, handle, send_frame, build_pong, build_action_rejected,
}
use gb_mahjong_server_rust.Ws.Frame.{refuse, dispatch, enter_room, handle_payload}

abbrev pub sent_of : AppState → Sent
sent_of app = app.room_manager.world.sent

-- A frame that was dealt with only added to what was sent.
abbrev pub AddsTo : AppState → Option (ConnectionSession × AppState) → Type 0
AddsTo app none = Unit
AddsTo app (some (session, app')) = Extends (sent_of app) (sent_of app')

send_frame-AddsTo :
    (session : ConnectionSession) (frame : ServerFrame) (before app : AppState)
    → sent_of app ≡ sent_of before
    → AddsTo before
        (elim (send_frame session frame app) [ none ↦ none | some app' ↦ some (session, app') ])
unfolding send_frame World.send_frame send
send_frame-AddsTo session frame before app same = elim (Option-cases (handle session)) [
  | inl e ↦ rw (e, send_frame) tt
  | inr (h, e) ↦ rw (e, send_frame) ((h.outbound_tx, frame) ∷ [], rw same refl)
]

dispatch-AddsTo :
    (call : ConnectionHandle → RoomManager → RoomManager) (session : ConnectionSession)
    (app : AppState)
    → ((h : ConnectionHandle) → Extends (sent_of app) (call h app.room_manager).world.sent)
    → AddsTo app (dispatch call session app)
unfolding dispatch
dispatch-AddsTo call session app adds = elim (Option-cases (handle session)) [
  | inl e ↦ rw (e, dispatch) tt
  | inr (h, e) ↦ rw (e, dispatch) (adds h)
]

pub refuse-AddsTo :
    (request_id : String) (reject_code : RejectCode) (message : String)
    (session : ConnectionSession) (app : AppState)
    → AddsTo app (refuse request_id reject_code message session app)
unfolding refuse build_action_rejected
refuse-AddsTo request_id reject_code message session app =
    send_frame-AddsTo session (build_action_rejected request_id reject_code message app).0 app
      (build_action_rejected request_id reject_code message app).1 refl

pub handle_payload-AddsTo :
    (request_id : String) (payload : Option ClientPayload) (session : ConnectionSession)
    (app : AppState)
    → AddsTo app (handle_payload request_id payload session app)
unfolding handle_payload build_pong unix_time_ms manager_step
handle_payload-AddsTo request_id none session app = refuse-AddsTo _ _ _ session app
handle_payload-AddsTo request_id (some (ClientPayload.heartbeat heartbeat)) session app =
    send_frame-AddsTo session (build_pong request_id heartbeat app).0 app
      (build_pong request_id heartbeat app).1 refl
handle_payload-AddsTo request_id (some (ClientPayload.join_room join_room)) session app =
    dispatch-AddsTo _ (enter_room join_room.room_id session) app
      (λ h. manager_step-Extends app.room_manager (call_join request_id h join_room))
handle_payload-AddsTo request_id (some (ClientPayload.ready ready)) session app =
    elim (Option-cases session.current_room_id) [
      | inl e ↦ rw (e, handle_payload) (refuse-AddsTo _ _ _ session app)
      | inr (room_id, e) ↦
          rw (e, handle_payload)
            (dispatch-AddsTo _ session app
              (λ h. manager_step-Extends app.room_manager (call_ready room_id request_id h ready)))
    ]
handle_payload-AddsTo request_id (some (ClientPayload.resume_session resume)) session app =
    dispatch-AddsTo _ (enter_room resume.room_id session) app
      (λ h. manager_step-Extends app.room_manager (call_resume request_id h resume))
handle_payload-AddsTo request_id (some (ClientPayload.player_action action)) session app =
    dispatch-AddsTo _ (enter_room action.room_id session) app
      (λ h. manager_step-Extends app.room_manager (call_player_action request_id h action))
