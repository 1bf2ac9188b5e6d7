-- ===== src/Room/Request/Opened.antt =====
-- The contexts of a request, by the numbers of the action (src/room.rs: build_recent_action_context,
-- build_claim_window_context).
use gb_mahjong_server_rust.Prelude.{
  ℕ, ◌-◌, ◌∷◌, string_eq, if◌then◌else◌, ◌≡◌, refl, inl, inr, true, false, Option, none, some, [],
  ok, Bool-cases, ◌==◌, nat_eq,
}
use gb_mahjong_server_rust.Prelude.Int.{ℤ}
use gb_mahjong_server_rust.Proto.Enum.{as_i32}
use gb_mahjong_server_rust.Proto.Client.{
  Seat, Action, discard, claim, declare_win, pass, supplemental_kong, auto_play_toggle,
  PlayerActionRequest, claim_kind_eq, win_type_eq,
}
use gb_mahjong_server_rust.Proto.Engine
use gb_mahjong_server_rust.Proto.Engine.{
  RecentActionContext, ClaimWindowContext, ValidateActionRequest, action_kind_enum,
}
use gb_mahjong_server_rust.Room.State.{RoomState}
use gb_mahjong_server_rust.Room.Parse.{seat_value, no_seat, no_tile}
use gb_mahjong_server_rust.Room.Parse.Kinds.{
  is_number, claim_opener, win_opener, claim_kind_of, win_type_of,
}
use gb_mahjong_server_rust.Room.Request.Recent.{build_recent_action_context}
use gb_mahjong_server_rust.Room.Request.Window.{
  claim_window_source, build_claim_window_context, window_for, WindowSource,
}
use gb_mahjong_server_rust.Room.Request.Judged.{bound, tile_ok, seat_ok}
use gb_mahjong_server_rust.Room.Request.Numbers.{is_in_schema, both, claim_parts, win_parts}

-- The event that the action answers, and what the window of the claim names, with the numbers of the
-- action: a discard and a kong come from the player's own last event, a claim and a win from the one
-- that the client names.
abbrev pub recent_for : RoomState → Seat → Action → Option RecentActionContext
recent_for s seat (discard a) = some (record {
  source_event_seq = s.next_event_seq - 1;
  source_seat = seat_value seat;
  source_action_kind = as_i32 Engine.ActionKind.draw;
  source_tile = a.tile;
  replacement_draw = false;
  rob_kong_candidate = false;
})
recent_for s seat (claim a) = some (record {
  source_event_seq = a.source_event_seq;
  source_seat = a.source_seat;
  source_action_kind = as_i32 (claim_opener a.claim_kind);
  source_tile = a.target_tile;
  replacement_draw = false;
  rob_kong_candidate = is_number 5 a.claim_kind;
})
recent_for s seat (declare_win a) = some (record {
  source_event_seq = a.source_event_seq;
  source_seat = a.source_seat;
  source_action_kind = as_i32 (win_opener a.win_type);
  source_tile = a.winning_tile;
  replacement_draw = is_number 4 a.win_type;
  rob_kong_candidate = is_number 3 a.win_type;
})
recent_for s seat (pass a) = some (record {
  source_event_seq = a.source_event_seq;
  source_seat = no_seat;
  source_action_kind = as_i32 Engine.ActionKind.unspecified;
  source_tile = no_tile;
  replacement_draw = false;
  rob_kong_candidate = false;
})
recent_for s seat (supplemental_kong a) = some (record {
  source_event_seq = s.next_event_seq - 1;
  source_seat = seat_value seat;
  source_action_kind = as_i32 Engine.ActionKind.supplemental_kong;
  source_tile = a.tile;
  replacement_draw = false;
  rob_kong_candidate = true;
})
recent_for s seat (auto_play_toggle a) = none

-- The window of a discard names no tile.
abbrev named_tile : Action → ℤ → ℤ
named_tile (discard a) tile = no_tile
named_tile _ tile = tile

abbrev pub opened_window :
    ℕ → Seat → Action → Option RecentActionContext → Option ClaimWindowContext
opened_window window_id seat action none = none
opened_window window_id seat action (some e) = some (record {
  action_window_id = window_id;
  source_event_seq = e.source_event_seq;
  source_seat = e.source_seat;
  target_tile = named_tile action e.source_tile;
  trigger_action_kind = e.source_action_kind;
  eligible_seats = seat_value seat ∷ [];
})

pub recent_ok :
    (s : RoomState) (actor_seat : Seat) (action : Action)
    → is_in_schema action ≡ true
    → build_recent_action_context s actor_seat action ≡ ok (recent_for s actor_seat action)
unfolding build_recent_action_context
recent_ok s actor_seat (discard a) h = bound _ (tile_ok a.tile (both _ true h).0) refl
recent_ok s actor_seat (claim a) h =
    let (kind, tile, seat) = claim_parts a h in
    let (k, found, trigger, robs) = claim_kind_of a.claim_kind kind in
    bound _ (seat_ok a.source_seat seat)
      (bound _ (tile_ok a.target_tile tile) (bound _ found (rw (trigger, robs) refl)))
recent_ok s actor_seat (declare_win a) h =
    let (kind, tile, seat) = win_parts a h in
    let (k, found, trigger, draws, robs) = win_type_of a.win_type kind in
    bound _ (seat_ok a.source_seat seat)
      (bound _ (tile_ok a.winning_tile tile) (bound _ found (rw (trigger, draws, robs) refl)))
recent_ok s actor_seat (pass a) h = refl
recent_ok s actor_seat (supplemental_kong a) h = bound _ (tile_ok a.tile (both _ true h).0) refl
recent_ok s actor_seat (auto_play_toggle a) h = refl

opened_ok :
    (s : RoomState) (actor_seat : Seat) (window_id : ℕ) (action : Action)
    → is_in_schema action ≡ true
    → (c : WindowSource) × (claim_window_source s actor_seat action ≡ ok c)
      × (window_for window_id actor_seat c
          ≡ opened_window window_id actor_seat action (recent_for s actor_seat action))
unfolding claim_window_source
opened_ok s actor_seat window_id (discard a) h = (_, refl, refl)
opened_ok s actor_seat window_id (claim a) h =
    let (kind, tile, seat) = claim_parts a h in
    let (k, found, trigger, robs) = claim_kind_of a.claim_kind kind in
    (
      _,
      bound _ (seat_ok a.source_seat seat) (bound _ (tile_ok a.target_tile tile) refl),
      rw trigger refl,
    )
opened_ok s actor_seat window_id (declare_win a) h =
    let (kind, tile, seat) = win_parts a h in
    let (k, found, trigger, draws, robs) = win_type_of a.win_type kind in
    (
      _,
      bound _ (seat_ok a.source_seat seat) (bound _ (tile_ok a.winning_tile tile) refl),
      rw trigger refl,
    )
opened_ok s actor_seat window_id (pass a) h = (_, refl, refl)
opened_ok s actor_seat window_id (supplemental_kong a) h =
    (_, bound _ (tile_ok a.tile (both _ true h).0) refl, refl)
opened_ok s actor_seat window_id (auto_play_toggle a) h = (_, refl, refl)

-- The window of a request: without a window's number, there is none.
abbrev pub window_of : RoomState → Seat → PlayerActionRequest → Action → Option ClaimWindowContext
window_of s seat request action =
    if request.action_window_id == 0
    then none
    else opened_window request.action_window_id seat action (recent_for s seat action)

pub window_ok :
    (s : RoomState) (actor_seat : Seat) (request : PlayerActionRequest) (action : Action)
    → is_in_schema action ≡ true
    → build_claim_window_context s actor_seat request action
      ≡ ok (window_of s actor_seat request action)
unfolding build_claim_window_context
window_ok s actor_seat request action h = elim (Bool-cases (request.action_window_id == 0)) [
  | inl closed ↦ rw closed refl
  | inr opened ↦
      let (c, e, window) = opened_ok s actor_seat request.action_window_id action h in
      rw (opened, e, window) refl
]
