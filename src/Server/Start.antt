-- ===== src/Server/Start.antt =====
-- src/main.rs: where the server listens, which rule engine it calls, and how it starts; src/app.rs:
-- build_router.
pub mod Listen
use gb_mahjong_server_rust.Prelude.{
  ℕ, String, Option, none, some, List, [], ◌∷◌, Result, ok, err, ◌>>=◌,
}
use gb_mahjong_server_rust.Prelude.Text.{◌+++◌}
use gb_mahjong_server_rust.Prelude.Decimal.{show_ℕ}
use gb_mahjong_server_rust.World.{World}
use gb_mahjong_server_rust.Engine.{Tonic, RuleEngineHandle, default_rule_engine_endpoint, tonic}
use gb_mahjong_server_rust.Engine.Error.{AnyhowError, with_context}
use gb_mahjong_server_rust.Manager.{with_rule_engine}
use gb_mahjong_server_rust.App.{AppState, with_room_manager}
use gb_mahjong_server_rust.Server.Number.{IntErrorKind, description, parse_u16}
use gb_mahjong_server_rust.Server.Address.{SocketAddr, parse_socket_addr}

-- std::env::VarError; the text is how a value that is not unicode prints.
pub data VarError : Type 0 where
  not_present : VarError
  not_unicode : (display : String) → VarError

-- `env::var`
abbrev pub Env : Type 0
Env = String → Result VarError String

-- An error of the standard library as an anyhow::Error.
abbrev pub displayed : String → AnyhowError
displayed text = record { display = text }

unfoldable pub resolve_rule_engine_endpoint : Env → String
resolve_rule_engine_endpoint env = elim (env "GB_MAHJONG_ENGINE_ENDPOINT") [
  | ok endpoint ↦ endpoint
  | err _ ↦ default_rule_engine_endpoint
]

unfoldable pub listen_host : Env → String
listen_host env = elim (env "GB_MAHJONG_HOST") [ ok host ↦ host | err _ ↦ "0.0.0.0" ]

-- `.parse::<u16>()` with anyhow's view of its error
unfoldable pub port_number : String → Result AnyhowError ℕ
port_number value = elim (parse_u16 value) [
  | ok port ↦ ok port
  | err kind ↦ err (displayed (description kind))
]

unfoldable pub socket_addr : String → Result AnyhowError SocketAddr
socket_addr text = elim (parse_socket_addr text) [
  | some addr ↦ ok addr
  | none ↦ err (displayed "invalid socket address syntax")
]

-- What anyhow's `context` does to an error is a parameter.
module _ (add_context : String → AnyhowError → AnyhowError) where
  unfoldable pub listen_port : Env → Result AnyhowError ℕ
  listen_port env = elim (env "GB_MAHJONG_PORT") [
    | ok value ↦ with_context add_context ("parse GB_MAHJONG_PORT=" +++ value) (port_number value)
    | err not_present ↦ ok 18080
    | err (not_unicode text) ↦ err (add_context "read GB_MAHJONG_PORT" (displayed text))
  ]

  unfoldable pub resolve_listen_addr : Env → Result AnyhowError SocketAddr
  unfolding listen_port listen_host port_number socket_addr
  resolve_listen_addr env =
      let host = listen_host env in
      do
        port ← listen_port env
        with_context add_context ("parse listen address " +++ host +++ ":" +++ show_ℕ port)
            (socket_addr (host +++ ":" +++ show_ℕ port))

-- The handlers of the router.
pub data Handler : Type 0 where
  healthz : Handler
  ws_handler : Handler

pub record Router : Type 0 where
  pub routes : List (String × Handler)
  pub state : AppState

unfoldable pub build_router : AppState → Router
build_router state = record {
  routes = ("/healthz", healthz) ∷ ("/ws", ws_handler) ∷ [];
  state = state;
}

-- What the body of `GET /healthz` says.
abbrev pub healthz_body : String
healthz_body = "ok"

-- The sockets of the process: whether an address can be bound, and how axum's server ends.
pub record Process : Type 0 where
  pub env : Env
  pub bind : SocketAddr → Result AnyhowError (Unit {0})
  pub serve : SocketAddr → Router → Result AnyhowError (Unit {0})

-- `main`; `send_error` and the world are what a RoomManager needs besides its rule engine.
unfoldable pub main : Tonic → Process → String → World → Result AnyhowError (Unit {0})
unfolding resolve_rule_engine_endpoint
main lib process send_error w =
    let endpoint = resolve_rule_engine_endpoint process.env in
    do
      rule_engine ←
          with_context lib.add_context ("configure rule engine client for " +++ endpoint)
            (tonic lib endpoint)
      let app = build_router (with_room_manager (with_rule_engine rule_engine send_error w))
      listen_addr ←
          with_context lib.add_context "resolve listen address"
            (resolve_listen_addr lib.add_context process.env)
      _ ← with_context lib.add_context "bind websocket listener" (process.bind listen_addr)
      _ ← with_context lib.add_context "run axum server" (process.serve listen_addr app)
      ok tt
