-- ===== src/Room/Send/Delivery.antt =====
-- Who receives the frames of a broadcast, and what is in them (src/room.rs: broadcast_sync_state,
-- broadcast_connection_changed).
use mathlib.Core.Option
use mathlib.Core.Path.{subst₂}
use gb_mahjong_server_rust.Prelude.{
  ℕ, ◌≡◌, refl, sym, ap, ◌∙◌, Option, none, some, List, [], ◌∷◌, ◌++◌, map, filter_map, inl, inr,
  append-nil, append_assoc,
}
use gb_mahjong_server_rust.Prelude.Int.{ℤ}
use gb_mahjong_server_rust.Proto.Enum.{as_i32}
use gb_mahjong_server_rust.Proto.Client.{
  Seat, SyncReason, ServerFrame, ServerPayload, PlayerState, SyncState, seat_eq, seat_enum,
  sync_reason_enum,
}
use gb_mahjong_server_rust.World.{ConnectionSender, World, send, unix_time_ms}
use gb_mahjong_server_rust.Room.State.{RoomState, Room, seat_order}
use gb_mahjong_server_rust.Room.Frames.{build_sync_state_for, player_state, players_in_order}
use gb_mahjong_server_rust.Room.Send.{sync_seats, broadcast_sync_state}
use gb_mahjong_server_rust.Room.Send.Cases.{seat_channel, sync_seat_cases}

-- What the reader of a channel learns from a frame with a snapshot.
pub record Notice : Type 0 where
  pub channel : ConnectionSender
  pub event_seq : ℕ
  pub latest_event_seq : ℕ
  pub reason : ℤ
  pub self_seat : ℤ
  pub players : List PlayerState

read_state : ConnectionSender → ℕ → SyncState → Option Notice
read_state tx seq state = elim state.snapshot [
  | none ↦ none
  | some snapshot ↦ some (record {
    channel = tx;
    event_seq = seq;
    latest_event_seq = snapshot.latest_event_seq;
    reason = state.reason;
    self_seat = snapshot.self_seat;
    players = snapshot.players;
  })
]

read_payload : ConnectionSender → ℕ → Option ServerPayload → Option Notice
unfolding read_state
read_payload tx seq (some (ServerPayload.sync_state state)) = read_state tx seq state
read_payload tx seq _ = none

pub read : ConnectionSender × ServerFrame → Option Notice
unfolding read_payload
read (tx, frame) = read_payload tx frame.event_seq frame.payload

-- What a broadcast owes to the player on a seat.
abbrev pub notice_for : RoomState → ℕ → SyncReason → Seat → ConnectionSender → Notice
notice_for s seq reason seat tx = record {
  channel = tx;
  event_seq = seq;
  latest_event_seq = seq;
  reason = as_i32 reason;
  self_seat = as_i32 seat;
  players = map (player_state s) (players_in_order s);
}

-- What it owes to the seats: a notice to each whose player has a live channel.
abbrev pub notices : RoomState → ℕ → SyncReason → List Seat → List (Option Notice)
notices s seq reason seats =
    filter_map
      (λ seat. Option.map (λ tx. some (notice_for s seq reason seat tx)) (seat_channel s seat))
      seats

-- What was sent between two worlds, as its readers see it.
abbrev pub Delivers : World → List (Option Notice) → World → Type 0
Delivers w expected w' =
    (l : List (ConnectionSender × ServerFrame)) × (w'.sent ≡ w.sent ++ l) × (map read l ≡ expected)

sync_seats-Delivers :
    (s : RoomState) (seq : ℕ) (reason : SyncReason) (seats : List Seat) (w : World)
    → Delivers w (notices s seq reason seats) (sync_seats s seq reason seats w)
unfolding sync_seats read build_sync_state_for send unix_time_ms
sync_seats-Delivers s seq reason [] w = ([], sym (append-nil w.sent), refl)
sync_seats-Delivers s seq reason (seat ∷ seats) w = elim (sync_seat_cases s seq reason seat w) [
  | inl (off, e) ↦ subst₂ after (sym off) (sym e) (sync_seats-Delivers s seq reason seats w)
  | inr (tx, on, e) ↦
      let frame = (build_sync_state_for s seat seq reason w).0 in
      let w' : World = send tx frame (build_sync_state_for s seat seq reason w).1 in
      let (l, added, seen) = sync_seats-Delivers s seq reason seats w' in
      subst₂ after (sym on) (sym e) (
        (tx, frame) ∷ l,
        added ∙ append_assoc w.sent ((tx, frame) ∷ []) l,
        ap (λ x. some (notice_for s seq reason seat tx) ∷ x) seen,
      )
]
  where
    after : Option ConnectionSender → World → Type 0
    after channel x =
        Delivers w
          (elim (Option.map (λ tx. some (notice_for s seq reason seat tx)) channel) [
            | none ↦ notices s seq reason seats
            | some notice ↦ notice ∷ notices s seq reason seats
          ])
          (sync_seats s seq reason seats x)

-- A broadcast of the table sends one frame to each player who is connected and has a channel, in the
-- order of the seats, and nothing to anyone else. The frame carries the room's next number, also as
-- its latest one, the reason, the reader's own seat, and the states of all the players.
pub broadcast_sync_state-Delivers :
    (reason : SyncReason) (r : Room)
    → let r' = broadcast_sync_state reason r in
      Delivers r.world (notices r'.state r.state.next_event_seq reason seat_order) r'.world
unfolding broadcast_sync_state
broadcast_sync_state-Delivers reason r =
    sync_seats-Delivers (broadcast_sync_state reason r).state r.state.next_event_seq reason
      seat_order r.world
