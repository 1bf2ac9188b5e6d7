-- ===== src/Server/Start/Listen.antt =====
-- src/main.rs: resolve_listen_addr on printed addresses and ports, and its errors.
use gb_mahjong_server_rust.Prelude.{
  ℕ, ◌≤◌, ◌<◌, ◌≡◌, refl, ◌⊎◌, inl, inr, true, false, String, [], ◌∷◌, ok, err, ltb, arith,
}
use gb_mahjong_server_rust.Prelude.Text.{◌+++◌}
use gb_mahjong_server_rust.Prelude.Decimal.{show_ℕ}
use gb_mahjong_server_rust.Engine.Error.{AnyhowError, with_context}
use gb_mahjong_server_rust.Server.Number.{description, u16_max}
use gb_mahjong_server_rust.Server.Number.Laws.{parse_u16-show_ℕ}
use gb_mahjong_server_rust.Server.Address.{v4}
use gb_mahjong_server_rust.Server.Address.Laws.{dotted, parse_socket_addr-dotted}
use gb_mahjong_server_rust.Server.Start.{
  VarError, not_present, Env, displayed, listen_host, listen_port, resolve_listen_addr, socket_addr,
  port_number,
}

-- The host is set to an IPv4 address, or is not set and stands for every interface.
abbrev pub NamesHost : Env → ℕ → ℕ → ℕ → ℕ → Type 0
NamesHost env a b c d =
    (env "GB_MAHJONG_HOST" ≡ ok (dotted a b c d))
    ⊎ ((e : VarError) × (env "GB_MAHJONG_HOST" ≡ err e) × (dotted a b c d ≡ "0.0.0.0"))

-- The port is set to a number, or is not set.
abbrev pub NamesPort : Env → ℕ → Type 0
NamesPort env p =
    (env "GB_MAHJONG_PORT" ≡ ok (show_ℕ p))
    ⊎ ((env "GB_MAHJONG_PORT" ≡ err not_present) × (p ≡ 18080))

module _ (add_context : String → AnyhowError → AnyhowError) (env : Env) where
  host_named : (a b c d : ℕ) → NamesHost env a b c d → listen_host env ≡ dotted a b c d
  unfolding listen_host
  host_named a b c d (inl e) = rw (e, listen_host) refl
  host_named a b c d (inr (error, e, all)) = rw (e, listen_host, all) refl

  port_read : (p : ℕ) → p ≤ 65535 → port_number (show_ℕ p) ≡ ok p
  unfolding port_number
  port_read p small =
      let low : ltb u16_max p ≡ false = ground arith in
      rw (port_number, parse_u16-show_ℕ p, low) refl

  port_named : (p : ℕ) → p ≤ 65535 → NamesPort env p → listen_port add_context env ≡ ok p
  unfolding listen_port with_context
  port_named p small (inl e) = rw (e, listen_port, port_read p small) refl
  port_named p small (inr (e, default)) = rw (e, listen_port, default) refl

  -- A host that is an IPv4 address as it prints, or no host, and a port up to 65535 as it prints, or
  -- no port: the server listens on that address and that port, where no host stands for 0.0.0.0 and no
  -- port for 18080.
  pub resolve_listen_addr-dotted :
      (a b c d p : ℕ)
      → a < 256
      → b < 256
      → c < 256
      → d < 256
      → p ≤ 65535
      → NamesHost env a b c d
      → NamesPort env p
      → resolve_listen_addr add_context env ≡ ok (v4 (a ∷ b ∷ c ∷ d ∷ []) p)
  unfolding resolve_listen_addr with_context socket_addr
  resolve_listen_addr-dotted a b c d p a_small b_small c_small d_small p_small host port =
      rw
        (
          resolve_listen_addr,
          port_named p p_small port,
          host_named a b c d host,
          parse_socket_addr-dotted a b c d p a_small b_small c_small d_small p_small,
          socket_addr,
          with_context,
        )
        refl

  -- A port above 65535, however large, is refused: the server does not start, and the error names the variable
  -- and its value.
  pub resolve_listen_addr-overflow :
      (p : ℕ)
      → 65535 < p
      → env "GB_MAHJONG_PORT" ≡ ok (show_ℕ p)
      → resolve_listen_addr add_context env
        ≡ err (
            add_context
              ("parse GB_MAHJONG_PORT=" +++ show_ℕ p)
              (displayed "number too large to fit in target type"))
  unfolding resolve_listen_addr listen_port port_number with_context description
  resolve_listen_addr-overflow p large set =
      let past : ltb u16_max p ≡ true = ground arith in
      rw (resolve_listen_addr, listen_port, set, port_number, parse_u16-show_ℕ p, past) refl
