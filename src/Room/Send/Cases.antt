-- ===== src/Room/Send/Cases.antt =====
-- What one round of each broadcast loop does, by the channel that the player has.
use gb_mahjong_server_rust.Prelude.{
  ℕ, ◌≡◌, Option, none, some, ◌⊎◌, inl, inr, if◌then◌else◌, Option-cases, Bool-cases,
}
use gb_mahjong_server_rust.HashMap.{get}
use gb_mahjong_server_rust.Proto.Client.{Seat, SyncReason, ServerFrame, seat_eq}
use gb_mahjong_server_rust.World.{ConnectionSender, World, send}
use gb_mahjong_server_rust.Room.State.{PlayerSlot, RoomState}
use gb_mahjong_server_rust.Room.Frames.{build_sync_state_for}
use gb_mahjong_server_rust.Room.Send.{sync_seat, send_player}

-- The channel of a player who is connected.
abbrev pub live_channel : PlayerSlot → Option ConnectionSender
live_channel player = if player.connected then player.outbound_tx else none

abbrev pub seat_channel : RoomState → Seat → Option ConnectionSender
seat_channel s seat = elim (get seat s.players_by_seat) [
  | none ↦ none
  | some player ↦ live_channel player
]

pub send_player_cases :
    (frame : ServerFrame) (player : PlayerSlot) (w : World)
    → ((live_channel player ≡ none) × (send_player frame player w ≡ w))
      ⊎ ((tx : ConnectionSender) × (live_channel player ≡ some tx)
          × (send_player frame player w ≡ send tx frame w))
unfolding send_player
send_player_cases frame player w = elim (Bool-cases player.connected) [
  | inr off ↦ inl (rw off, rw off)
  | inl on ↦ elim (Option-cases player.outbound_tx) [
    | inl lost ↦ inl (rw (on, lost), rw (on, lost))
    | inr (tx, there) ↦ inr (tx, rw (on, there), rw (on, there))
  ]
]

pub sync_seat_cases :
    (s : RoomState) (seq : ℕ) (reason : SyncReason) (seat : Seat) (w : World)
    → ((seat_channel s seat ≡ none) × (sync_seat s seq reason seat w ≡ w))
      ⊎ ((tx : ConnectionSender) × (seat_channel s seat ≡ some tx)
          × (sync_seat s seq reason seat w
              ≡ send tx
                  (build_sync_state_for s seat seq reason w).0
                  (build_sync_state_for s seat seq reason w).1))
unfolding sync_seat
sync_seat_cases s seq reason seat w = elim (Option-cases (get seat s.players_by_seat)) [
  | inl e ↦ inl (rw (e, seat_channel), rw (e, sync_seat))
  | inr (p, e) ↦ elim (Bool-cases p.connected) [
    | inr off ↦ inl (rw (e, seat_channel, off), rw (e, sync_seat, off))
    | inl on ↦ elim (Option-cases p.outbound_tx) [
      | inl lost ↦ inl (rw (e, seat_channel, on, lost), rw (e, sync_seat, on, lost))
      | inr (tx, there) ↦ inr (tx, rw (e, seat_channel, on, there), rw (e, sync_seat, on, there))
    ]
  ]
]
