-- ===== src/Room/Send/Fanout.antt =====
-- Who hears of a connection that changed (src/room.rs: broadcast_connection_changed).
use gb_mahjong_server_rust.Prelude.{
  ◌≡◌, sym, ◌∙◌, Bool, true, false, Option, none, some, List, [], ◌∷◌, ◌++◌, map, filter_map, inl,
  inr, append-nil, append_assoc, if◌then◌else◌, wrapping_add,
}
use mathlib.Core.Path.{subst₂}
use gb_mahjong_server_rust.HashMap.{get, values}
use gb_mahjong_server_rust.Proto.Enum.{as_i32}
use gb_mahjong_server_rust.Proto.Client.{
  Seat, ServerFrame, ServerPayload, seat_eq, seat_enum, player_status_enum,
}
use gb_mahjong_server_rust.World.{ConnectionSender, World, send, unix_time_ms}
use gb_mahjong_server_rust.Room.State.{PlayerSlot, Room, reconnect_grace_ms}
use gb_mahjong_server_rust.Room.Frames.{build_player_connection_changed}
use gb_mahjong_server_rust.Room.Send.{send_players, announce, broadcast_connection_changed}
use gb_mahjong_server_rust.Room.Send.Cases.{live_channel, send_player_cases}

-- The frame once for each live channel of the players.
abbrev pub fanout : ServerFrame → List PlayerSlot → List (ConnectionSender × ServerFrame)
fanout frame players = map (λ tx. (tx, frame)) (filter_map live_channel players)

pub sent-send_players :
    (frame : ServerFrame) (players : List PlayerSlot) (w : World)
    → (send_players frame players w).sent ≡ w.sent ++ fanout frame players
unfolding send_players send
sent-send_players frame [] w = sym (append-nil w.sent)
sent-send_players frame (player ∷ players) w = elim (send_player_cases frame player w) [
  | inl (off, e) ↦ subst₂ after (sym off) (sym e) (sent-send_players frame players w)
  | inr (tx, on, e) ↦ subst₂ after (sym on) (sym e) (
      sent-send_players frame players (send tx frame w)
      ∙ append_assoc w.sent ((tx, frame) ∷ []) (fanout frame players))
]
  where
    after : Option ConnectionSender → World → Type 0
    after channel x =
        (send_players frame players x).sent
        ≡ w.sent
          ++ map (λ tx. (tx, frame))
              (elim channel [
                | none ↦ filter_map live_channel players
                | some tx ↦ tx ∷ filter_map live_channel players
              ])

-- What the players are told of the player on the seat.
abbrev pub change : Room → Seat → Bool → PlayerSlot → ServerPayload
change r seat connected player = ServerPayload.player_connection_changed (record {
  room_id = r.state.room_id;
  match_id = r.state.match_id;
  user_id = player.user_id;
  seat = as_i32 seat;
  status = as_i32 player.status;
  connected = connected;
  reconnect_deadline_unix_ms =
      if connected then 0 else wrapping_add (unix_time_ms r.world).0 reconnect_grace_ms;
})

announce-fanout :
    (seat : Seat) (connected : Bool) (player : PlayerSlot) (r : Room)
    → let frame : ServerFrame = record {
      event_seq = r.state.next_event_seq;
      payload = some (change r seat connected player);
    } in
      (announce seat connected player r).world.sent
      ≡ r.world.sent ++ fanout frame (values r.state.players_by_seat)
unfolding announce build_player_connection_changed unix_time_ms
announce-fanout seat true player r = sent-send_players _ (values r.state.players_by_seat) r.world
announce-fanout seat false player r =
    sent-send_players _ (values r.state.players_by_seat) (unix_time_ms r.world).1

-- When the connection of a seated player changes, each player who is connected and has a channel is
-- sent one and the same frame, under the room's next number, with the player's seat and status, and
-- for a lost connection the deadline for the return, 30 seconds after the clock's time.
pub broadcast_connection_changed-fanout :
    (seat : Seat) (connected : Bool) (player : PlayerSlot) (r : Room)
    → get seat r.state.players_by_seat ≡ some player
    → let frame : ServerFrame = record {
      event_seq = r.state.next_event_seq;
      payload = some (change r seat connected player);
    } in
      (broadcast_connection_changed seat connected r).world.sent
      ≡ r.world.sent ++ fanout frame (values r.state.players_by_seat)
unfolding broadcast_connection_changed
broadcast_connection_changed-fanout seat connected player r there =
    rw (there, broadcast_connection_changed) (announce-fanout seat connected player r)
