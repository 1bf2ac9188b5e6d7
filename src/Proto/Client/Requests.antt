-- ===== src/Proto/Client/Requests.antt =====
-- What a client sends (proto/client/session.proto, proto/client/actions.proto). The value of an
-- enumeration is an i32 of any value, as prost leaves it; an absent message is `none`.
use gb_mahjong_server_rust.Prelude.{ℕ, String, Bool, Option, List}
use gb_mahjong_server_rust.Prelude.Int.{ℤ}

pub record JoinRoomRequest : Type 0 where
  pub room_id : String
  pub user_id : String
  pub session_token : String
  pub display_name : String
  pub client_version : String

pub record ReadyRequest : Type 0 where
  pub ready : Bool

pub record Heartbeat : Type 0 where
  pub client_time_ms : ℕ
  pub last_received_event_seq : ℕ

pub record ResumeSessionRequest : Type 0 where
  pub room_id : String
  pub user_id : String
  pub resume_token : String
  pub last_received_event_seq : ℕ

pub record DiscardAction : Type 0 where
  pub tile : ℤ
  pub tsumogiri : Bool

pub record ClaimAction : Type 0 where
  pub claim_kind : ℤ
  pub target_tile : ℤ
  pub consume_tiles : List ℤ
  pub source_seat : ℤ
  pub source_event_seq : ℕ

pub record DeclareWinAction : Type 0 where
  pub win_type : ℤ
  pub winning_tile : ℤ
  pub source_seat : ℤ
  pub source_event_seq : ℕ

pub record PassAction : Type 0 where
  pub source_event_seq : ℕ

pub record SupplementalKongAction : Type 0 where
  pub tile : ℤ

pub record AutoPlayToggleAction : Type 0 where
  pub enabled : Bool

pub data Action : Type 0 where
  discard : DiscardAction → Action
  claim : ClaimAction → Action
  declare_win : DeclareWinAction → Action
  pass : PassAction → Action
  supplemental_kong : SupplementalKongAction → Action
  auto_play_toggle : AutoPlayToggleAction → Action

pub record PlayerActionRequest : Type 0 where
  pub room_id : String
  pub match_id : String
  pub round_id : String
  pub expected_event_seq : ℕ
  pub action_window_id : ℕ
  pub action : Option Action

pub data ClientPayload : Type 0 where
  join_room : JoinRoomRequest → ClientPayload
  ready : ReadyRequest → ClientPayload
  heartbeat : Heartbeat → ClientPayload
  resume_session : ResumeSessionRequest → ClientPayload
  player_action : PlayerActionRequest → ClientPayload

pub record ClientFrame : Type 0 where
  pub request_id : String
  pub payload : Option ClientPayload
