-- ===== src/Room/Readiness.antt =====
-- What a ready request leads to (src/room.rs: handle_ready).
use mathlib.Core.Bool.{true≢false}
use gb_mahjong_server_rust.Prelude.{
  ◌≡◌, refl, sym, subst, ap, ◌∙◌, ◌⊎◌, inl, inr, some, String, if◌then◌else◌, Bool-cases, All,
}
use gb_mahjong_server_rust.Room.Invariant.{IsWellFormed}
use gb_mahjong_server_rust.Room.Invariant.Run.{handle_ready-IsWellFormed}
use gb_mahjong_server_rust.Room.Phase.{HasReady, is_all_ready_each, is_all_ready-HasReady}
use gb_mahjong_server_rust.HashMap.{get, insert}
use gb_mahjong_server_rust.HashMap.Laws.{get-insert_same}
use gb_mahjong_server_rust.Proto.Client.{
  Seat, GamePhase, PlayerStatus, SyncReason, ReadyRequest, seat_eq,
}
use gb_mahjong_server_rust.Room.State.{PlayerSlot, RoomState, Room, seat_order, seat_for_connection}
use gb_mahjong_server_rust.Room.Send.{broadcast_sync_state}
use gb_mahjong_server_rust.Room.Send.Delivery.{Delivers, notices, broadcast_sync_state-Delivers}
use gb_mahjong_server_rust.Room.Seating.{
  set_status, is_all_ready, update_phase, mark_ready, handle_ready,
}

-- Where a ready request leaves the table, and the reason that its snapshots give.
abbrev pub TableTurns : RoomState → SyncReason → Type 0
TableTurns s reason =
    (All (HasReady s) seat_order
      × (s.phase ≡ GamePhase.dealing)
      × (reason ≡ SyncReason.round_start))
    ⊎ ((¬ All (HasReady s) seat_order)
        × (s.phase ≡ GamePhase.lobby)
        × (reason ≡ SyncReason.server_resync))

TableTurns-reason :
    (s : RoomState)
    → IsWellFormed s
    → TableTurns s (if is_all_ready s then SyncReason.round_start else SyncReason.server_resync)
TableTurns-reason s v = elim (Bool-cases (is_all_ready s)) [
  | inl yes_all ↦ inl (is_all_ready_each s v yes_all, v.phased ∙ rw yes_all refl, rw yes_all refl)
  | inr not_all ↦ inr (
    λ each. true≢false (sym (is_all_ready-HasReady s v each) ∙ not_all),
    v.phased ∙ rw not_all refl,
    rw not_all refl,
  )
]

abbrev pub status_for : ReadyRequest → PlayerStatus
status_for request = if request.ready then PlayerStatus.ready else PlayerStatus.joined

-- The room after a ready request, by what it did to the slots.
abbrev ready_room : Room → RoomState → Room
ready_room r s =
    broadcast_sync_state
      (if is_all_ready s then SyncReason.round_start else SyncReason.server_resync)
      (record r { state = update_phase s })

abbrev with_status : Seat → PlayerStatus → PlayerSlot → RoomState → RoomState
with_status seat status player s = record s {
  players_by_seat = insert seat (record player { status = status }) s.players_by_seat;
}

pub set_status_seated :
    (seat : Seat) (status : PlayerStatus) (player : PlayerSlot) (s : RoomState)
    → get seat s.players_by_seat ≡ some player
    → set_status seat status s ≡ with_status seat status player s
unfolding set_status
set_status_seated seat status player s there = rw (there, set_status) refl

ready_room_of :
    (request_id connection_id : String) (request : ReadyRequest) (seat : Seat) (player : PlayerSlot)
    (r : Room)
    → seat_for_connection r.state connection_id ≡ some seat
    → get seat r.state.players_by_seat ≡ some player
    → handle_ready request_id connection_id request r
      ≡ ready_room r (with_status seat (status_for request) player r.state)
unfolding handle_ready mark_ready
ready_room_of request_id connection_id request seat player r found there =
    rw (found, handle_ready)
      (ap (ready_room r) (set_status_seated seat (status_for request) player r.state there))

-- In a well-formed room, a ready request of a seated player sets the player's status. If now each of
-- the four seats has a player who is ready, the room is in the deal, and if not, it is in the lobby.
-- Every connected player is shown the new table, with the reason of a round's start in the first case
-- and of a resync in the second.
pub handle_ready-Delivers :
    (request_id connection_id : String) (request : ReadyRequest) (seat : Seat) (player : PlayerSlot)
    (r : Room)
    → IsWellFormed r.state
    → seat_for_connection r.state connection_id ≡ some seat
    → get seat r.state.players_by_seat ≡ some player
    → let r' = handle_ready request_id connection_id request r in
      (get seat r'.state.players_by_seat ≡ some (record player { status = status_for request }))
      × (reason : SyncReason) × TableTurns r'.state reason
      × Delivers r.world (notices r'.state r.state.next_event_seq reason seat_order) r'.world
unfolding update_phase broadcast_sync_state is_all_ready
handle_ready-Delivers request_id connection_id request seat player r v found there =
    subst Outcome (sym leaves) outcome
  where
    s : RoomState
    s = with_status seat (status_for request) player r.state

    Outcome : Room → Type 0
    Outcome r' =
        (get seat r'.state.players_by_seat ≡ some (record player { status = status_for request }))
        × (reason : SyncReason) × TableTurns r'.state reason
        × Delivers r.world (notices r'.state r.state.next_event_seq reason seat_order) r'.world

    leaves : handle_ready request_id connection_id request r ≡ ready_room r s
    leaves = ready_room_of request_id connection_id request seat player r found there

    well : IsWellFormed (ready_room r s).state
    well =
        subst (λ (r' : Room). IsWellFormed r'.state) leaves
          (handle_ready-IsWellFormed r v request_id connection_id request)

    outcome : Outcome (ready_room r s)
    outcome = (
      get-insert_same seat (record player { status = status_for request }) r.state.players_by_seat,
      (if is_all_ready s then SyncReason.round_start else SyncReason.server_resync),
      TableTurns-reason (ready_room r s).state well,
      broadcast_sync_state-Delivers _ (record r { state = update_phase s }),
    )
