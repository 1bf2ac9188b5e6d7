-- ===== src/Manager/Calls.antt =====
-- The methods of the rooms' manager cut at their awaits: the read lock, the write lock, and room in
-- the bounded channel (src/room.rs: RoomManager). Callers and tasks take their steps in any order.
pub mod Changes
pub mod Sound
pub mod Answers
pub mod Work
pub mod Progress
pub mod Channels
pub mod History
pub mod Log
pub mod Handled
pub mod Capacity
use gb_mahjong_server_rust.Prelude.{
  ℕ, Bool, false, Option, none, some, List, [], ◌∷◌, ◌++◌, String, ◌==◌, ◌&&◌, not, nat_eq, length,
  leb, if◌then◌else◌,
}
use gb_mahjong_server_rust.Prelude.Positions.{get_elem?, set}
use gb_mahjong_server_rust.HashMap.{get}
use gb_mahjong_server_rust.Proto.Client.{
  RejectCode, JoinRoomRequest, ReadyRequest, ResumeSessionRequest, PlayerActionRequest,
}
use gb_mahjong_server_rust.World.{ConnectionHandle}
use gb_mahjong_server_rust.Room.Action.{
  RoomCommand, handle_command, join, ready, resume_session, player_action, disconnect,
}
use gb_mahjong_server_rust.Manager.{
  RoomTask, RoomManager, get_room_sender, create_room_sender, enqueue, reply, send_command,
  spawn_room, dispatch_join, dispatch_ready, dispatch_resume, dispatch_player_action,
  disconnect_from, run_task,
}

-- How many commands a channel holds.
abbrev pub room_command_buffer : ℕ
room_command_buffer = 256

-- A method and its arguments.
pub data ManagerCall : Type 0 where
  to_join : (request_id : String) → ConnectionHandle → JoinRoomRequest → ManagerCall
  to_ready : (room_id request_id : String) → ConnectionHandle → ReadyRequest → ManagerCall
  to_resume : (request_id : String) → ConnectionHandle → ResumeSessionRequest → ManagerCall
  to_act : (request_id : String) → ConnectionHandle → PlayerActionRequest → ManagerCall
  to_leave : (room_id connection_id : String) → ManagerCall

abbrev pub room_of : ManagerCall → String
room_of (to_join _ _ request) = request.room_id
room_of (to_ready room_id _ _ _) = room_id
room_of (to_resume _ _ request) = request.room_id
room_of (to_act _ _ request) = request.room_id
room_of (to_leave room_id _) = room_id

-- Where a call awaits: the read lock of `get_room_sender`, the write lock of
-- `get_or_create_room_sender`, room in the channel of its sender, or nothing more.
pub data CallState : Type 0 where
  looking_up : CallState
  creating : CallState
  sending : (sender : ℕ) → CallState
  returned : CallState

pub record Caller : Type 0 where
  pub call : ManagerCall
  pub at : CallState

-- `get_room_sender` found nothing: a join goes on to the write lock, the others return.
pub absent : ManagerCall → RoomManager → CallState × RoomManager
absent (to_join request_id connection request) m = (creating, m)
absent (to_ready room_id request_id connection request) m = (
  returned,
  reply connection request_id RejectCode.room_not_found "room task not found for ReadyRequest" 0 0
      m,
)
absent (to_resume request_id connection request) m = (
  returned,
  reply connection request_id RejectCode.room_not_found
      "room task not found for ResumeSessionRequest" 0 0 m,
)
absent (to_act request_id connection request) m = (
  returned,
  reply connection request_id RejectCode.room_not_found
      "room task not found for PlayerActionRequest" request.expected_event_seq
      request.action_window_id m,
)
absent (to_leave room_id connection_id) m = (returned, m)

-- Under the read lock.
pub look_up : ManagerCall → RoomManager → CallState × RoomManager
look_up call m = elim (get_room_sender (room_of call) m) [
  | none ↦ absent call m
  | some sender ↦ (sending sender, m)
]

-- Under the write lock.
pub create : ManagerCall → RoomManager → CallState × RoomManager
create call m = let (sender, m') = create_room_sender (room_of call) m in (sending sender, m')

-- The command is handed to the channel, or the channel is closed.
pub submit : ManagerCall → ℕ → RoomManager → RoomManager
submit (to_join request_id connection request) sender m =
    send_command sender (join request_id connection request) connection request.room_id m
submit (to_ready room_id request_id connection request) sender m =
    send_command sender (ready request_id connection.connection_id request) connection room_id m
submit (to_resume request_id connection request) sender m =
    send_command sender (resume_session request_id connection request) connection request.room_id m
submit (to_act request_id connection request) sender m =
    send_command sender (player_action request_id connection.connection_id request) connection
      request.room_id m
submit (to_leave room_id connection_id) sender m =
    elim (enqueue sender (disconnect connection_id) m) [ none ↦ m | some m' ↦ m' ]

-- A channel has no room; one that is closed makes nobody wait.
pub is_full : ℕ → RoomManager → Bool
is_full sender m = elim (get sender m.tasks) [
  | none ↦ false
  | some task ↦ leb room_command_buffer (length task.queue)
]

-- The next step of a call: `none` while it waits for room, and once it has returned.
pub advance : ManagerCall → CallState → RoomManager → Option (CallState × RoomManager)
advance call looking_up m = some (look_up call m)
advance call creating m = some (create call m)
advance call (sending sender) m =
    if is_full sender m then none else some (returned, submit call sender m)
advance call returned m = none

-- `answers` says which calls of the rule engine are ever answered.
pub record System : Type 0 where
  pub manager : RoomManager
  pub callers : List Caller
  pub answers : (call : ℕ) → Bool

-- A connection calls a method, a call goes on, or a task handles its oldest command.
pub data Move : Type 0 where
  arrive : ManagerCall → Move
  go_on : (caller : ℕ) → Move
  serve : (task : ℕ) → Move

-- The command calls the rule engine, which never answers.
abbrev pub hangs : (ℕ → Bool) → RoomCommand → RoomTask → RoomManager → Bool
hangs answers command task m =
    let r = handle_command command (record { state = task.state; world = m.world }) in
    not (answers m.world.calls) && not (r.world.calls == m.world.calls)

-- A task without commands waits in `recv`, and one whose command hangs in `validate_action`.
pub serve_task : (ℕ → Bool) → ℕ → RoomManager → Option RoomManager
serve_task answers k m = elim (get k m.tasks) [
  | none ↦ none
  | some task ↦ elim task.queue [
    | [] ↦ none
    | command ∷ queue ↦ if hangs answers command task m then none else some (run_task k m)
  ]
]

pub move : Move → System → Option System
move (arrive call) s =
    some (record s { callers = s.callers ++ (record { call = call; at = looking_up }) ∷ [] })
move (go_on i) s = elim (get_elem? s.callers i) [
  | none ↦ none
  | some c ↦ elim (advance c.call c.at s.manager) [
    | none ↦ none
    | some (at, m) ↦
        some (record s { manager = m; callers = set s.callers i (record c { at = at }) })
  ]
]
move (serve k) s = elim (serve_task s.answers k s.manager) [
  | none ↦ none
  | some m ↦ some (record s { manager = m })
]

-- The moves in their order; `none` if one of them is not possible when its turn comes.
unfoldable pub run : List Move → System → Option System
unfolding move advance look_up create submit absent is_full serve_task get_room_sender
    create_room_sender send_command enqueue reply run_task spawn_room
run [] s = some s
run (x ∷ xs) s = elim (move x s) [ none ↦ none | some s' ↦ run xs s' ]
