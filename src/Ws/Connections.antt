-- ===== src/Ws/Connections.antt =====
-- All connections of the server and its rooms as one system (src/ws.rs: handle_socket; src/app.rs:
-- AppState). The connections' tasks and the rooms' tasks have their rounds in any order.
pub mod Kept
pub mod Held
pub mod Reached
use gb_mahjong_server_rust.Prelude.{
  ℕ, zero, suc, ◌≡◌, ◌≢◌, none, some, List, [], ◌∷◌, ◌++◌, Option, All,
}
use gb_mahjong_server_rust.Prelude.Positions.{get_elem?, set, remove_at}
use gb_mahjong_server_rust.Proto.Client.{ClientFrame}
use gb_mahjong_server_rust.World.{ConnectionSender}
use gb_mahjong_server_rust.Manager.{run_task}
use gb_mahjong_server_rust.App.{AppState}
use gb_mahjong_server_rust.Ws.Socket.{
  SocketEvent, SocketTask, Flow, continue, break, panic, channel, socket_step, open_socket,
  close_socket,
}

-- The shared state, and the connections whose loops run.
pub record Connections : Type 0 where
  pub app : AppState
  pub open_sockets : List SocketTask

-- A websocket is upgraded, with its new channel.
pub connect : ConnectionSender → Connections → Connections
connect tx c =
    let (task, app) = open_socket tx c.app in
    record { app = app; open_sockets = c.open_sockets ++ task ∷ [] }

-- A round of a connection's loop. When the loop is left, the rest of handle_socket runs.
pub settle : ℕ → Flow → Connections → Connections
settle i (continue task app) c = record { app = app; open_sockets = set c.open_sockets i task }
settle i (break task app) c = record {
  app = close_socket task app;
  open_sockets = remove_at c.open_sockets i;
}
settle i panic c = record c { open_sockets = remove_at c.open_sockets i }

-- A room's task has its turn.
pub take_turn : ℕ → Connections → Connections
take_turn k c = record c { app = record c.app { room_manager = run_task k c.app.room_manager } }

module _ (decode : List ℕ → Option ClientFrame) where
  pub receive : ℕ → SocketEvent → Connections → Connections
  unfolding settle
  receive i event c = elim (get_elem? c.open_sockets i) [
    | none ↦ c
    | some task ↦ settle i (socket_step decode event task c.app) c
  ]

  -- What the server meets after so many connections. A new channel is nobody's, and empty.
  pub data Meets (start : AppState) : ℕ → Connections → Type 0 where
    began : Meets start 0 (record { app = start; open_sockets = [] })
    connected :
        {n : ℕ} {c : Connections} (tx : ConnectionSender)
        → channel tx c.app.room_manager.world ≡ []
        → All (λ (task : SocketTask). task.outbound_rx ≢ tx) c.open_sockets
        → Meets start n c
        → Meets start (suc n) (connect tx c)
    received :
        {n : ℕ} {c : Connections} (i : ℕ) (event : SocketEvent)
        → Meets start n c
        → Meets start n (receive i event c)
    turned : {n : ℕ} {c : Connections} (k : ℕ) → Meets start n c → Meets start n (take_turn k c)
