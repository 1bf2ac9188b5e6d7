-- ===== src/Proto/Client/Enums.antt =====
-- The enumerations of proto/client/common/enums.proto: Seat, GamePhase, PlayerStatus, SyncReason.
use gb_mahjong_server_rust.Prelude.{ℕ, ◌≡◌, refl, String, some, List, [], ◌∷◌, PartialEq}
use gb_mahjong_server_rust.Proto.Enum.{ProtoEnum, enum_eq, numbered}

pub data Seat : Type 0 where
  unspecified east south west north : Seat

abbrev seat_variants : List Seat
seat_variants = Seat.unspecified ∷ Seat.east ∷ Seat.south ∷ Seat.west ∷ Seat.north ∷ []

unfoldable pub seat_number : Seat → ℕ
seat_number Seat.unspecified = 0
seat_number Seat.east = 1
seat_number Seat.south = 2
seat_number Seat.west = 3
seat_number Seat.north = 4

unfoldable pub seat_str_name : Seat → String
seat_str_name Seat.unspecified = "SEAT_UNSPECIFIED"
seat_str_name Seat.east = "SEAT_EAST"
seat_str_name Seat.south = "SEAT_SOUTH"
seat_str_name Seat.west = "SEAT_WEST"
seat_str_name Seat.north = "SEAT_NORTH"

pub seat_found : (a : Seat) → numbered seat_number (seat_number a) seat_variants ≡ some a
unfolding seat_number
seat_found Seat.unspecified = refl
seat_found _ = refl

instance abbrev pub seat_enum : ProtoEnum Seat
seat_enum = record {
  variants = seat_variants;
  number = seat_number;
  str_name = seat_str_name;
  found = seat_found;
}

instance abbrev pub seat_eq : PartialEq Seat
seat_eq = enum_eq

pub data GamePhase : Type 0 where
  unspecified lobby dealing replacing_flower drawing waiting_discard waiting_claim : GamePhase
  resolving_kong round_settlement match_settlement : GamePhase

abbrev game_phase_variants : List GamePhase
game_phase_variants =
    GamePhase.unspecified ∷ GamePhase.lobby ∷ GamePhase.dealing ∷ GamePhase.replacing_flower
    ∷ GamePhase.drawing ∷ GamePhase.waiting_discard ∷ GamePhase.waiting_claim
    ∷ GamePhase.resolving_kong ∷ GamePhase.round_settlement ∷ GamePhase.match_settlement ∷ []

unfoldable pub game_phase_number : GamePhase → ℕ
game_phase_number GamePhase.unspecified = 0
game_phase_number GamePhase.lobby = 1
game_phase_number GamePhase.dealing = 2
game_phase_number GamePhase.replacing_flower = 3
game_phase_number GamePhase.drawing = 4
game_phase_number GamePhase.waiting_discard = 5
game_phase_number GamePhase.waiting_claim = 6
game_phase_number GamePhase.resolving_kong = 7
game_phase_number GamePhase.round_settlement = 8
game_phase_number GamePhase.match_settlement = 9

unfoldable pub game_phase_str_name : GamePhase → String
game_phase_str_name GamePhase.unspecified = "GAME_PHASE_UNSPECIFIED"
game_phase_str_name GamePhase.lobby = "GAME_PHASE_LOBBY"
game_phase_str_name GamePhase.dealing = "GAME_PHASE_DEALING"
game_phase_str_name GamePhase.replacing_flower = "GAME_PHASE_REPLACING_FLOWER"
game_phase_str_name GamePhase.drawing = "GAME_PHASE_DRAWING"
game_phase_str_name GamePhase.waiting_discard = "GAME_PHASE_WAITING_DISCARD"
game_phase_str_name GamePhase.waiting_claim = "GAME_PHASE_WAITING_CLAIM"
game_phase_str_name GamePhase.resolving_kong = "GAME_PHASE_RESOLVING_KONG"
game_phase_str_name GamePhase.round_settlement = "GAME_PHASE_ROUND_SETTLEMENT"
game_phase_str_name GamePhase.match_settlement = "GAME_PHASE_MATCH_SETTLEMENT"

pub game_phase_found :
    (a : GamePhase) → numbered game_phase_number (game_phase_number a) game_phase_variants ≡ some a
unfolding game_phase_number
game_phase_found GamePhase.unspecified = refl
game_phase_found _ = refl

instance abbrev pub game_phase_enum : ProtoEnum GamePhase
game_phase_enum = record {
  variants = game_phase_variants;
  number = game_phase_number;
  str_name = game_phase_str_name;
  found = game_phase_found;
}

instance abbrev pub game_phase_eq : PartialEq GamePhase
game_phase_eq = enum_eq

pub data PlayerStatus : Type 0 where
  unspecified joined ready playing disconnected reconnecting auto_play left : PlayerStatus

abbrev player_status_variants : List PlayerStatus
player_status_variants =
    PlayerStatus.unspecified ∷ PlayerStatus.joined ∷ PlayerStatus.ready ∷ PlayerStatus.playing
    ∷ PlayerStatus.disconnected ∷ PlayerStatus.reconnecting ∷ PlayerStatus.auto_play
    ∷ PlayerStatus.left ∷ []

unfoldable pub player_status_number : PlayerStatus → ℕ
player_status_number PlayerStatus.unspecified = 0
player_status_number PlayerStatus.joined = 1
player_status_number PlayerStatus.ready = 2
player_status_number PlayerStatus.playing = 3
player_status_number PlayerStatus.disconnected = 4
player_status_number PlayerStatus.reconnecting = 5
player_status_number PlayerStatus.auto_play = 6
player_status_number PlayerStatus.left = 7

unfoldable pub player_status_str_name : PlayerStatus → String
player_status_str_name PlayerStatus.unspecified = "PLAYER_STATUS_UNSPECIFIED"
player_status_str_name PlayerStatus.joined = "PLAYER_STATUS_JOINED"
player_status_str_name PlayerStatus.ready = "PLAYER_STATUS_READY"
player_status_str_name PlayerStatus.playing = "PLAYER_STATUS_PLAYING"
player_status_str_name PlayerStatus.disconnected = "PLAYER_STATUS_DISCONNECTED"
player_status_str_name PlayerStatus.reconnecting = "PLAYER_STATUS_RECONNECTING"
player_status_str_name PlayerStatus.auto_play = "PLAYER_STATUS_AUTO_PLAY"
player_status_str_name PlayerStatus.left = "PLAYER_STATUS_LEFT"

pub player_status_found :
    (a : PlayerStatus)
    → numbered player_status_number (player_status_number a) player_status_variants ≡ some a
unfolding player_status_number
player_status_found PlayerStatus.unspecified = refl
player_status_found _ = refl

instance abbrev pub player_status_enum : ProtoEnum PlayerStatus
player_status_enum = record {
  variants = player_status_variants;
  number = player_status_number;
  str_name = player_status_str_name;
  found = player_status_found;
}

instance abbrev pub player_status_eq : PartialEq PlayerStatus
player_status_eq = enum_eq

pub data SyncReason : Type 0 where
  unspecified initial_join reconnect server_resync round_start : SyncReason

abbrev sync_reason_variants : List SyncReason
sync_reason_variants =
    SyncReason.unspecified ∷ SyncReason.initial_join ∷ SyncReason.reconnect
    ∷ SyncReason.server_resync ∷ SyncReason.round_start ∷ []

pub sync_reason_number : SyncReason → ℕ
sync_reason_number SyncReason.unspecified = 0
sync_reason_number SyncReason.initial_join = 1
sync_reason_number SyncReason.reconnect = 2
sync_reason_number SyncReason.server_resync = 3
sync_reason_number SyncReason.round_start = 4

unfoldable pub sync_reason_str_name : SyncReason → String
sync_reason_str_name SyncReason.unspecified = "SYNC_REASON_UNSPECIFIED"
sync_reason_str_name SyncReason.initial_join = "SYNC_REASON_INITIAL_JOIN"
sync_reason_str_name SyncReason.reconnect = "SYNC_REASON_RECONNECT"
sync_reason_str_name SyncReason.server_resync = "SYNC_REASON_SERVER_RESYNC"
sync_reason_str_name SyncReason.round_start = "SYNC_REASON_ROUND_START"

pub sync_reason_found :
    (a : SyncReason)
    → numbered sync_reason_number (sync_reason_number a) sync_reason_variants ≡ some a
unfolding sync_reason_number
sync_reason_found SyncReason.unspecified = refl
sync_reason_found _ = refl

instance abbrev pub sync_reason_enum : ProtoEnum SyncReason
sync_reason_enum = record {
  variants = sync_reason_variants;
  number = sync_reason_number;
  str_name = sync_reason_str_name;
  found = sync_reason_found;
}

instance abbrev pub sync_reason_eq : PartialEq SyncReason
sync_reason_eq = enum_eq
