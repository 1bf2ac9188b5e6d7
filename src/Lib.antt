-- ===== src/Lib.antt =====
-- A model of the game server gb_mahjong_server_rust, with the theorems that make it correct.
--
-- The server keeps rooms of four players for Chinese official mahjong. Clients talk to it in protobuf
-- frames over websockets; each connection has a task, each room has a task, and a registry takes the
-- frames of the connections to the rooms. The hands are judged by a rule engine in another process.
--
-- The parts, the files that model them, and the code they model:
--   * HashMap, Prelude: std::collections::HashMap as the list of its entries, and lists, options,
--     results, machine integers and the printing of numbers.
--   * Proto: the messages and enumerations of proto/client and proto/engine that the server uses. An
--     enumeration is a data type with the numbers and names of the schema (`ProtoEnum`: as_i32,
--     try_from, as_str_name, from_str_name); a message is a record, a oneof a data type. Fields of
--     enumeration type are the i32 that came, as in the code.
--   * Engine (src/engine.rs): the trait RuleEngine as a record of its functions, RuleEngineHandle, the
--     engine that accepts everything and the gRPC client. A call may be answered differently each
--     time, so an engine is given the number of the call; `answers` says which calls it ever answers.
--   * World: what a handler reaches outside its room: the clock, the calls of the engine, and one log
--     of what was sent to the connections' unbounded channels (`UnboundedSender::send` appends to it).
--   * Room (src/room.rs, RoomState): State has the record and its small functions; Frames the build_*
--     functions of the frames; Send the broadcasts and send_reject_to_connection; Seating handle_join,
--     handle_ready and handle_auto_play_toggle; Reconnect handle_resume and handle_disconnect; Parse
--     and Request the translation of a client's action into a request for the engine (parse_client_*,
--     map_*_to_engine, build_validate_action_request and what it calls); Action handle_player_action,
--     handle_command and run_room_task. A handler takes a `Room`, the state with the world around it,
--     to the next. A long handler is cut into functions where the code has a block of its own:
--     handle_join ends in admit, handle_resume in accept_resume, handle_disconnect in leave. Lobby is
--     the specification of a task: who sits where and which connection stands for which seat, with a
--     step for each command; Lobby/View reads the lobby off the tables.
--   * Manager (src/room.rs, RoomManager): the registry, the tasks with the commands in their channels,
--     the dispatch_* functions, disconnect (disconnect_from), and a task's turn (run_task). Calls has
--     the same methods cut where they await: `look_up` under the read lock, `create` under the write
--     lock, `submit` once the channel of 256 commands has room. A `System` is the manager with the
--     calls that are under way; `move` is one step of a caller or a task, `run` any order of them.
--     A task whose command calls an engine that never answers has no step.
--   * App (src/app.rs): AppState with its two counters.
--   * Server (src/main.rs, and build_router of src/app.rs): Start has the resolution of the endpoint
--     and of the listen address from the environment, and `main` as the chain of its stages; Number
--     and Address are the parsers of the standard library that it calls.
--   * Ws (src/ws.rs): Session has ConnectionSession, Frame handle_client_frame, Socket the loop of
--     handle_socket, one `SocketEvent` for each round of its select; Connections has all connections
--     with the shared state, and `Meets` is any order of their rounds and of the rooms' turns.
--   * Tests: runs of the model, and the theorems applied to them.
-- The proofs stand below the part they are about: Room/Invariant, Room/Sequence, Room/Connection,
-- Room/Admission, Room/Phase, Room/Readiness, Room/Unordered, the children of Room/Lobby,
-- Room/Send/Delivery, Room/Send/Fanout, Room/Request/Copied, Room/Request/Consistent,
-- Room/Parse/Agreement, Room/Parse/Kinds, Room/Action/Answer, Room/Action/Guards, Manager/Registry,
-- Manager/Schedule, Manager/Drain, Manager/Extends, the children of Manager/Calls,
-- Server/Start/Listen, App/Numbering, Ws/Safety, Ws/Fifo, Ws/Closing and Ws/Connections.
--
-- Bounds. u64 counters wrap around, as in a release build; a theorem that needs them not to says so.
-- The printing of numbers runs on fuel, one more than the number, which Prelude/Decimal/Laws is about.
-- Loops are structural recursion over seats, players, commands or events.
--
-- Parameters. What tonic, anyhow and prost do is an argument: whether an endpoint parses, the answers
-- of the service, the context of an error, the decoding of a payload. Whether a send on a socket
-- succeeds is part of the event. The environment, the binding of an address and the end of axum's
-- server are the fields of a `Process`.
--
-- Not modelled: the set-up of logging and the wait for a signal (src/main.rs), the wire format of the
-- messages, logging, receivers that are gone (the code only logs them), and the C++ engine. A task
-- does not stop, since the registry keeps a sender of its channel. A dispatch of `Manager` is one step;
-- `Manager.Calls` lets others run at its awaits, and in any order, where tokio serves the waiting in
-- theirs. A task's turn is one step, with the call of the rule engine in it: the code awaits the
-- answer (src/room.rs: handle_player_action), and callers and other tasks go on meanwhile. They do not
-- touch the room that waits, but the order of the clock's readings, of the engine's calls and of the
-- frames of different rooms may differ from that of the model. The code sets no time limit to the
-- engine's answer. A command whose turn hangs stays the first of its queue, where the code has taken
-- it off the channel, which then has room for one more. The values of a HashMap are gone through in
-- the order of insertion; the code leaves the order open, and Room/Unordered is about that.
mod Prelude
pub mod HashMap
pub mod Proto
pub mod Engine
pub mod World
pub mod Room
pub mod Manager
pub mod App
pub mod Ws
pub mod Server
pub mod Tests
