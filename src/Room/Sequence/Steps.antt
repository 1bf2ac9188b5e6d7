-- ===== src/Room/Sequence/Steps.antt =====
-- Each way of sending takes one number and keeps the order.
use gb_mahjong_server_rust.Prelude.{
  ℕ, ◌+◌, ◌≤◌, ◌<◌, ◌≡◌, refl, sym, subst, wrapping_add, Bool, true, false, inl, inr, List, [], ◌∷◌,
  String, u64_mod, arith, Option-cases,
}
use gb_mahjong_server_rust.HashMap.{get, values}
use gb_mahjong_server_rust.Proto.Client.{Seat, RejectCode, SyncReason, ServerFrame, seat_eq}
use gb_mahjong_server_rust.World.{ConnectionSender, World}
use gb_mahjong_server_rust.Room.State.{PlayerSlot, RoomState, Room, seat_order}
use gb_mahjong_server_rust.Room.Frames.{
  build_action_rejected, build_player_connection_changed, build_sync_state_for,
}
use gb_mahjong_server_rust.Room.Send.{
  sync_seats, broadcast_sync_state, send_players, broadcast_connection_changed, announce, reject_on,
  reject_target, send_reject_to_connection,
}
use gb_mahjong_server_rust.Room.Send.Cases.{send_player_cases, sync_seat_cases}
use gb_mahjong_server_rust.Room.Sequence.Order.{Ordered, Ordered-mono, send-Ordered, IsSequenced}

sync_seats-Ordered :
    (low high seq : ℕ) (s : RoomState) (reason : SyncReason) (seats : List Seat) (w : World)
    → high ≤ seq
    → Ordered low high w.sent
    → Ordered low seq (sync_seats s seq reason seats w).sent
unfolding sync_seats build_sync_state_for
sync_seats-Ordered low high seq s reason [] w h o = Ordered-mono low high seq w.sent h o
sync_seats-Ordered low high seq s reason (seat ∷ seats) w h o =
    elim (sync_seat_cases s seq reason seat w) [
      | inl (_, e) ↦ subst rest (sym e) (sync_seats-Ordered low high seq s reason seats w h o)
      | inr (tx, _, e) ↦ subst rest (sym e) (
          sync_seats-Ordered low seq seq s reason seats _ (omega arith)
            (send-Ordered low high seq tx _ _ refl h o))
    ]
  where
    rest : World → Type 0
    rest x = Ordered low seq (sync_seats s seq reason seats x).sent

send_players-Ordered :
    (low high seq : ℕ) (frame : ServerFrame) (players : List PlayerSlot) (w : World)
    → frame.event_seq ≡ seq
    → high ≤ seq
    → Ordered low high w.sent
    → Ordered low seq (send_players frame players w).sent
unfolding send_players
send_players-Ordered low high seq frame [] w same h o = Ordered-mono low high seq w.sent h o
send_players-Ordered low high seq frame (player ∷ players) w same h o =
    elim (send_player_cases frame player w) [
      | inl (_, e) ↦ subst rest (sym e) (send_players-Ordered low high seq frame players w same h o)
      | inr (tx, _, e) ↦ subst rest (sym e) (
          send_players-Ordered low seq seq frame players _ same (omega arith)
            (send-Ordered low high seq tx frame w same h o))
    ]
  where
    rest : World → Type 0
    rest x = Ordered low seq (send_players frame players x).sent

-- The room is in order, and at most `k` numbers further than `r`.
abbrev pub Within : Room → ℕ → Room → Type 0
Within r k r' = IsSequenced r' × (r'.state.next_event_seq ≤ r.state.next_event_seq + k)

-- `f` takes at most `k` numbers, and keeps the order as long as these do not wrap around.
abbrev pub Takes : ℕ → (Room → Room) → Type 0
Takes k f = (r : Room) → IsSequenced r → r.state.next_event_seq + k < u64_mod → Within r k (f r)

pub Takes-comp :
    (j k : ℕ) (f g : Room → Room) → Takes j f → Takes k g → Takes (j + k) (λ r. g (f r))
Takes-comp j k f g hf hg r v room =
    let (v', bound) = hf r v (omega arith) in
    let (v'', bound') = hg (f r) v' (omega arith) in (v'', omega arith)

pub one_number :
    (r r' : Room)
    → r.state.next_event_seq + 1 < u64_mod
    → r'.state.next_event_seq ≡ wrapping_add r.state.next_event_seq 1
    → Ordered 0 r.state.next_event_seq r'.world.sent
    → Within r 1 r'
one_number r r' room e o =
    ((Ordered-mono 0 _ _ r'.world.sent (omega arith) o, omega arith), omega arith)

pub broadcast_sync_state-Takes : (reason : SyncReason) → Takes 1 (broadcast_sync_state reason)
unfolding broadcast_sync_state
broadcast_sync_state-Takes reason r v room =
    one_number r (broadcast_sync_state reason r) room refl
      (sync_seats-Ordered 0 _ _ _ reason seat_order r.world (omega arith) v.0)

announce-Takes :
    (seat : Seat) (connected : Bool) (player : PlayerSlot)
    → Takes 1 (announce seat connected player)
unfolding announce build_player_connection_changed
announce-Takes seat true player r v room = one_number r (announce seat true player r) room refl (
    send_players-Ordered 0 _ r.state.next_event_seq _ (values r.state.players_by_seat) r.world refl
      (omega arith) v.0)
announce-Takes seat false player r v room = one_number r (announce seat false player r) room refl (
    send_players-Ordered 0 _ r.state.next_event_seq _ (values r.state.players_by_seat) _ refl
      (omega arith) v.0)

pub broadcast_connection_changed-Takes :
    (seat : Seat) (connected : Bool) → Takes 1 (broadcast_connection_changed seat connected)
unfolding broadcast_connection_changed
broadcast_connection_changed-Takes seat connected r v room =
    elim (Option-cases (get seat r.state.players_by_seat)) [
      | inl e ↦ rw (e, broadcast_connection_changed) (v, omega arith)
      | inr (player, e) ↦
          rw (e, broadcast_connection_changed) (announce-Takes seat connected player r v room)
    ]

reject_on-Takes :
    (tx : ConnectionSender) (request_id : String) (reject_code : RejectCode) (message : String)
    (expected window : ℕ)
    → Takes 1 (reject_on tx request_id reject_code message expected window)
unfolding reject_on build_action_rejected
reject_on-Takes tx request_id reject_code message expected window r v room =
    one_number r (reject_on tx request_id reject_code message expected window r) room refl
      (send-Ordered 0 _ _ tx _ r.world refl (omega arith) v.0)

pub send_reject_to_connection-Takes :
    (connection_id request_id : String) (reject_code : RejectCode) (message : String)
    (expected window : ℕ)
    → Takes 1
        (send_reject_to_connection connection_id request_id reject_code message expected window)
unfolding send_reject_to_connection
send_reject_to_connection-Takes connection_id request_id reject_code message expected window r v
      room =
    elim (Option-cases (reject_target r.state connection_id)) [
      | inl e ↦ rw (e, send_reject_to_connection) (v, omega arith)
      | inr (tx, e) ↦
          rw (e, send_reject_to_connection)
            (reject_on-Takes tx request_id reject_code message expected window r v room)
    ]

pub Takes-mono : (j k : ℕ) (f : Room → Room) → j ≤ k → Takes j f → Takes k f
Takes-mono j k f h hf r v room = let (v', bound) = hf r v (omega arith) in (v', omega arith)
