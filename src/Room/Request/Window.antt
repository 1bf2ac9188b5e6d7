-- ===== src/Room/Request/Window.antt =====
-- src/room.rs: build_claim_window_context.
use gb_mahjong_server_rust.Prelude.{
  ℕ, Option, none, some, [], ◌∷◌, Result, ok, ◌>>=◌, ◌==◌, nat_eq, if◌then◌else◌,
}
use gb_mahjong_server_rust.Prelude.Int.{ℤ}
use gb_mahjong_server_rust.Proto.Enum.{as_i32}
use gb_mahjong_server_rust.Proto.Client.{
  Seat, Action, discard, claim, declare_win, pass, supplemental_kong, auto_play_toggle,
  PlayerActionRequest, claim_kind_eq, win_type_eq,
}
use gb_mahjong_server_rust.Proto.Engine
use gb_mahjong_server_rust.Proto.Engine.{
  seat_enum, tile_enum, action_kind_enum, RecentActionContext, ClaimWindowContext, RuleConfig,
  RoundContext, EnginePlayerState, ValidateActionRequest,
}
use gb_mahjong_server_rust.Room.State.{RoomState, current_event_seq}
use gb_mahjong_server_rust.Room.Parse.{
  seat_value, no_tile, no_seat, ActionValidationError, parse_client_seat_value,
  parse_client_tile_value, derive_claim_trigger_action, derive_win_trigger_action,
}

-- The tuple that the match of `build_claim_window_context` binds; `none` is its early return.
abbrev pub WindowSource : Type 0
WindowSource = Option (ℕ × ℤ × ℤ × ℤ)

unfoldable pub claim_window_source :
    RoomState → Seat → Action → Result ActionValidationError WindowSource
unfolding current_event_seq
claim_window_source s actor_seat (claim a) = do
  source_seat ← parse_client_seat_value a.source_seat
  target_tile ← parse_client_tile_value a.target_tile
  ok (
      some (
        a.source_event_seq,
        source_seat,
        target_tile,
        as_i32 (derive_claim_trigger_action a.claim_kind),
      ))
claim_window_source s actor_seat (declare_win a) = do
  source_seat ← parse_client_seat_value a.source_seat
  target_tile ← parse_client_tile_value a.winning_tile
  ok (
      some (
        a.source_event_seq,
        source_seat,
        target_tile,
        as_i32 (derive_win_trigger_action a.win_type),
      ))
claim_window_source s actor_seat (pass a) =
    ok (some (a.source_event_seq, no_seat, no_tile, as_i32 Engine.ActionKind.unspecified))
claim_window_source s actor_seat (discard a) =
    ok (some (current_event_seq s, seat_value actor_seat, no_tile, as_i32 Engine.ActionKind.draw))
claim_window_source s actor_seat (supplemental_kong a) = do
  target_tile ← parse_client_tile_value a.tile
  ok (
      some (
        current_event_seq s,
        seat_value actor_seat,
        target_tile,
        as_i32 Engine.ActionKind.supplemental_kong,
      ))
claim_window_source s actor_seat (auto_play_toggle a) = ok none

abbrev pub window_for : ℕ → Seat → WindowSource → Option ClaimWindowContext
window_for action_window_id actor_seat none = none
window_for action_window_id actor_seat (some (event_seq, source_seat, target_tile, trigger)) =
    some (record {
      action_window_id = action_window_id;
      source_event_seq = event_seq;
      source_seat = source_seat;
      target_tile = target_tile;
      trigger_action_kind = trigger;
      eligible_seats = seat_value actor_seat ∷ [];
    })

unfoldable pub build_claim_window_context :
    RoomState
    → Seat
    → PlayerActionRequest
    → Action
    → Result ActionValidationError (Option ClaimWindowContext)
unfolding claim_window_source
build_claim_window_context s actor_seat request action =
    if request.action_window_id == 0 then ok none else do
      source ← claim_window_source s actor_seat action
      ok (window_for request.action_window_id actor_seat source)
