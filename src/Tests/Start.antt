-- ===== src/Tests/Start.antt =====
-- The start of the server on concrete environments (src/main.rs, src/app.rs).
use gb_mahjong_server_rust.Prelude.{
  ◌≡◌, refl, inl, inr, none, some, [], ◌∷◌, String, ok, err, string_eq, ◌==◌, if◌then◌else◌, arith,
}
use gb_mahjong_server_rust.Prelude.Decimal.{show_ℕ}
use gb_mahjong_server_rust.Engine.{noop_rule_engine, Tonic, tonic}
use gb_mahjong_server_rust.Engine.Error.{AnyhowError, with_context}
use gb_mahjong_server_rust.Server.Number.{parse_u16}
use gb_mahjong_server_rust.Server.Address.{v4, v6, parse_socket_addr}
use gb_mahjong_server_rust.Server.Address.Laws.{dotted}
use gb_mahjong_server_rust.Server.Start.{
  not_present, not_unicode, Env, displayed, resolve_listen_addr, main,
}
use gb_mahjong_server_rust.Server.Start.Listen.{
  resolve_listen_addr-dotted, resolve_listen_addr-overflow,
}
use gb_mahjong_server_rust.Tests.Data.{quiet_world}

four : parse_socket_addr "127.0.0.1:80" ≡ some (v4 (127 ∷ 0 ∷ 0 ∷ 1 ∷ []) 80)
unfolding parse_socket_addr
four = refl

six :
    parse_socket_addr "[fe80::1%3]:8080"
    ≡ some (v6 (0xfe80 ∷ 0 ∷ 0 ∷ 0 ∷ 0 ∷ 0 ∷ 0 ∷ 1 ∷ []) 3 8080)
unfolding parse_socket_addr
six = refl

mapped :
    parse_socket_addr "[::ffff:1.2.3.4]:1"
    ≡ some (v6 (0 ∷ 0 ∷ 0 ∷ 0 ∷ 0 ∷ 0xffff ∷ 0x102 ∷ 0x304 ∷ []) 0 1)
unfolding parse_socket_addr
mapped = refl

no_zero : parse_socket_addr "127.0.0.01:80" ≡ none
unfolding parse_socket_addr
no_zero = refl

no_name : parse_socket_addr "localhost:80" ≡ none
unfolding parse_socket_addr
no_name = refl

-- An environment in which only the port is set.
abbrev port_set : String → Env
port_set value name = if name == "GB_MAHJONG_PORT" then ok value else err not_present

abbrev outermost : String → AnyhowError → AnyhowError
outermost text cause = displayed text

resolve_listen_addr-dotted_example :
    resolve_listen_addr outermost (port_set "8080") ≡ ok (v4 (0 ∷ 0 ∷ 0 ∷ 0 ∷ []) 8080)
unfolding dotted show_ℕ
resolve_listen_addr-dotted_example =
    resolve_listen_addr-dotted outermost (port_set "8080") 0 0 0 0 8080 (omega arith) (omega arith)
      (omega arith) (omega arith) (omega arith) (inr (not_present, refl, refl)) (inl refl)

resolve_listen_addr-overflow_example :
    resolve_listen_addr outermost (port_set "70000") ≡ err (displayed "parse GB_MAHJONG_PORT=70000")
unfolding show_ℕ
resolve_listen_addr-overflow_example =
    resolve_listen_addr-overflow outermost (port_set "70000") 70000 (omega arith) refl

not_text :
    resolve_listen_addr outermost (λ name. err (not_unicode "bytes"))
    ≡ err (displayed "read GB_MAHJONG_PORT")
unfolding resolve_listen_addr
not_text = refl

abbrev client : Tonic
client = record {
  from_shared = λ endpoint. ok endpoint;
  rpc = λ endpoint. noop_rule_engine;
  add_context = outermost;
}

-- A port that is taken.
taken :
    main client
      (record {
        env = port_set "8080";
        bind = λ addr. err (displayed "address in use");
        serve = λ addr app. ok tt;
      })
      "closed"
      quiet_world
    ≡ err (displayed "bind websocket listener")
unfolding main with_context tonic resolve_listen_addr parse_u16 parse_socket_addr show_ℕ
taken = refl
