-- ===== src/Room/Request/Consistent.antt =====
-- The two contexts that go to the rule engine with an action, against one another (src/room.rs:
-- build_recent_action_context, build_claim_window_context).
use gb_mahjong_server_rust.Prelude.{◌≡◌, ◌≢◌, ◌⊎◌, some, [], ◌∷◌, ok, nat_eq, ℕ, Bool}
use gb_mahjong_server_rust.Proto.Client.{
  Seat, Action, DiscardAction, discard, PlayerActionRequest, claim_kind_eq, win_type_eq,
}
use gb_mahjong_server_rust.Proto.Engine
use gb_mahjong_server_rust.Proto.Engine.{
  action_kind_enum, seat_enum, tile_enum, RecentActionContext, ClaimWindowContext,
}
use gb_mahjong_server_rust.Room.State.{RoomState}
use gb_mahjong_server_rust.Room.Parse.{seat_value, no_tile}
use gb_mahjong_server_rust.Room.Request.Recent.{build_recent_action_context}
use gb_mahjong_server_rust.Prelude.Int.{ℤ}
use gb_mahjong_server_rust.Room.Request.Window.{build_claim_window_context}

-- The window was opened by the recent action, and only the acting player may answer in it. The window of a
-- discard names no tile.
pub record Agrees (request : PlayerActionRequest) (seat : Seat) (action : Action)
    (recent : RecentActionContext) (window : ClaimWindowContext) : Type 0 where
  pub same_number : window.source_event_seq ≡ recent.source_event_seq
  pub same_seat : window.source_seat ≡ recent.source_seat
  pub same_trigger : window.trigger_action_kind ≡ recent.source_action_kind
  pub same_tile :
      (window.target_tile ≡ recent.source_tile)
      ⊎ ((a : DiscardAction) × (action ≡ discard a) × (window.target_tile ≡ no_tile))
  pub own_window : window.action_window_id ≡ request.action_window_id
  pub is_open : request.action_window_id ≢ 0
  pub only_actor : window.eligible_seats ≡ seat_value seat ∷ []

abbrev event : ℕ → ℤ → ℤ → ℤ → Bool → Bool → RecentActionContext
event event_seq seat kind tile replaced robbed = record {
  source_event_seq = event_seq;
  source_seat = seat;
  source_action_kind = kind;
  source_tile = tile;
  replacement_draw = replaced;
  rob_kong_candidate = robbed;
}

-- Both contexts of the action are there, and agree.
abbrev pub AreConsistent : RoomState → Seat → PlayerActionRequest → Action → Type 0
AreConsistent s seat request action =
    (recent : RecentActionContext) × (window : ClaimWindowContext) × (build_recent_action_context s
        seat action
      ≡ ok (some recent))
    × (build_claim_window_context s seat request action ≡ ok (some window))
    × Agrees request seat action recent window
