-- ===== src/Manager.antt =====
-- src/room.rs: RoomManager, the registry of the room tasks, and the queues of their commands.
pub mod Registry
pub mod Schedule
pub mod Extends
pub mod Drain
pub mod Calls
use gb_mahjong_server_rust.Prelude.{
  ℕ, ◌+◌, Option, none, some, List, [], ◌∷◌, ◌++◌, String, nat_eq, string_eq,
}
use gb_mahjong_server_rust.Prelude.Text.{◌+++◌}
use gb_mahjong_server_rust.HashMap.{HashMap, get, insert}
use gb_mahjong_server_rust.Proto.Client.{
  RejectCode, JoinRoomRequest, ReadyRequest, ResumeSessionRequest, PlayerActionRequest,
}
use gb_mahjong_server_rust.Engine.{RuleEngineHandle}
use gb_mahjong_server_rust.World.{ConnectionHandle, World, send_frame}
use gb_mahjong_server_rust.Room.State.{RoomState, Room, new}
use gb_mahjong_server_rust.Room.Frames.{build_action_rejected}
use gb_mahjong_server_rust.Room.Action.{
  RoomCommand, join, ready, resume_session, player_action, disconnect, handle_command,
}

-- A spawned task: its state, and the commands in its channel, the oldest first.
pub record RoomTask : Type 0 where
  pub state : RoomState
  pub queue : List RoomCommand

-- `rooms` maps a room's id to the sender of its channel, which is the number of its task. A task that
-- is not in `tasks` has stopped, and its channel is closed; `send_error` is how such an error prints.
pub record RoomManager : Type 0 where
  pub rooms : HashMap String ℕ
  pub rule_engine : RuleEngineHandle
  pub tasks : HashMap ℕ RoomTask
  pub spawned : ℕ
  pub send_error : String
  pub world : World

unfoldable pub with_rule_engine : RuleEngineHandle → String → World → RoomManager
with_rule_engine rule_engine send_error w = record {
  rooms = [];
  rule_engine = rule_engine;
  tasks = [];
  spawned = 0;
  send_error = send_error;
  world = w;
}

pub get_room_sender : String → RoomManager → Option ℕ
get_room_sender room_id m = get room_id m.rooms

-- `tokio::spawn(run_room_task(..))` and the entry for it.
pub spawn_room : String → RoomManager → ℕ × RoomManager
unfolding new
spawn_room room_id m = (
  m.spawned,
  record m {
    rooms = insert room_id m.spawned m.rooms;
    tasks = insert m.spawned (record { state = new room_id m.rule_engine; queue = [] }) m.tasks;
    spawned = m.spawned + 1;
  },
)

-- The part of `get_or_create_room_sender` under the write lock, which looks again.
pub create_room_sender : String → RoomManager → ℕ × RoomManager
create_room_sender room_id m = elim (get room_id m.rooms) [
  | some sender ↦ (sender, m)
  | none ↦ spawn_room room_id m
]

pub get_or_create_room_sender : String → RoomManager → ℕ × RoomManager
get_or_create_room_sender room_id m = elim (get_room_sender room_id m) [
  | some sender ↦ (sender, m)
  | none ↦ create_room_sender room_id m
]

-- `sender.send(command)`, once the channel has room: `none` if the channel is closed.
pub enqueue : ℕ → RoomCommand → RoomManager → Option RoomManager
enqueue sender command m = elim (get sender m.tasks) [
  | none ↦ none
  | some task ↦ some (record m {
    tasks = insert sender (record task { queue = task.queue ++ command ∷ [] }) m.tasks;
  })
]

pub reply : ConnectionHandle → String → RejectCode → String → ℕ → ℕ → RoomManager → RoomManager
reply connection request_id reject_code message expected_event_seq action_window_id m = record m {
  world =
      send_frame connection
        (build_action_rejected 0 request_id reject_code message expected_event_seq action_window_id)
        m.world;
}

pub send_command : ℕ → RoomCommand → ConnectionHandle → String → RoomManager → RoomManager
send_command sender command connection room_id m = elim (enqueue sender command m) [
  | some m' ↦ m'
  | none ↦
      reply connection "" RejectCode.internal_error
        ("failed to enqueue command for room " +++ room_id +++ ": " +++ m.send_error) 0 0 m
]

pub dispatch_join : String → ConnectionHandle → JoinRoomRequest → RoomManager → RoomManager
dispatch_join request_id connection request m =
    let (sender, m') = get_or_create_room_sender request.room_id m in
    send_command sender (join request_id connection request) connection request.room_id m'

pub dispatch_ready : String → String → ConnectionHandle → ReadyRequest → RoomManager → RoomManager
dispatch_ready room_id request_id connection request m = elim (get_room_sender room_id m) [
  | none ↦
      reply connection request_id RejectCode.room_not_found "room task not found for ReadyRequest" 0
        0 m
  | some sender ↦
      send_command sender (ready request_id connection.connection_id request) connection room_id m
]

pub dispatch_resume : String → ConnectionHandle → ResumeSessionRequest → RoomManager → RoomManager
dispatch_resume request_id connection request m = elim (get_room_sender request.room_id m) [
  | none ↦
      reply connection request_id RejectCode.room_not_found
        "room task not found for ResumeSessionRequest" 0 0 m
  | some sender ↦
      send_command sender (resume_session request_id connection request) connection request.room_id
        m
]

pub dispatch_player_action :
    String → ConnectionHandle → PlayerActionRequest → RoomManager → RoomManager
dispatch_player_action request_id connection request m = elim (get_room_sender request.room_id m) [
  | none ↦
      reply connection request_id RejectCode.room_not_found
        "room task not found for PlayerActionRequest" request.expected_event_seq
        request.action_window_id m
  | some sender ↦
      send_command sender (player_action request_id connection.connection_id request) connection
        request.room_id m
]

-- `RoomManager::disconnect`; a closed channel is only logged.
pub disconnect_from : String → String → RoomManager → RoomManager
disconnect_from room_id connection_id m = elim (get_room_sender room_id m) [
  | none ↦ m
  | some sender ↦ elim (enqueue sender (disconnect connection_id) m) [ none ↦ m | some m' ↦ m' ]
]

pub take_command : ℕ → RoomState → List RoomCommand → RoomManager → RoomManager
take_command task state [] m = m
take_command task state (command ∷ queue) m =
    let r = handle_command command (record { state = state; world = m.world }) in
    record m {
      tasks = insert task (record { state = r.state; queue = queue }) m.tasks;
      world = r.world;
    }

-- One round of the loop of `run_room_task`: the task takes its oldest command, if it has one. The round
-- is one step, with the answer of the rule engine that a command may await in it.
pub run_task : ℕ → RoomManager → RoomManager
unfolding take_command
run_task task m = elim (get task m.tasks) [
  | none ↦ m
  | some t ↦ take_command task t.state t.queue m
]
