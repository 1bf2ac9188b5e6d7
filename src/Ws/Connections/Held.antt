-- ===== src/Ws/Connections/Held.antt =====
-- What holds of all connections together, and what keeps it (src/ws.rs: handle_socket).
use mathlib.Core.Option.{some-injective}
use gb_mahjong_server_rust.Prelude.{
  ℕ, zero, suc, ◌+◌, ◌≤◌, ◌≡◌, ◌≢◌, refl, sym, ◌∙◌, subst, inl, inr, some, List, [], ◌∷◌, ◌++◌,
  String, All, Option-cases, nat_eq,
}
use gb_mahjong_server_rust.Prelude.Text.{◌+++◌}
use gb_mahjong_server_rust.Prelude.Decimal.{show_ℕ}
use gb_mahjong_server_rust.Prelude.Positions.{
  get_elem?, set, remove_at, All-get_elem?, set-All, append-All, map-All, remove_at-All,
}
use gb_mahjong_server_rust.Room.Extends.{Extends}
use gb_mahjong_server_rust.Manager.Registry.{IsRegistered}
use gb_mahjong_server_rust.Manager.Schedule.{
  manager_step, call_disconnect, turn, manager_step-IsRegistered,
}
use gb_mahjong_server_rust.Manager.Extends.{manager_step-Extends}
use gb_mahjong_server_rust.App.{AppState}
use gb_mahjong_server_rust.Ws.Socket.{SocketTask, close_socket}
use gb_mahjong_server_rust.Ws.Wire.{sent_of}
use gb_mahjong_server_rust.Ws.Fifo.{IsFaithful, IsFaithful-mono}
use gb_mahjong_server_rust.Ws.Connections.{Connections, take_turn}
use gb_mahjong_server_rust.Ws.Connections.Kept.{Kept, Kept-refl}

-- The name of a connection that was opened among the first n.
abbrev pub IsNamed : ℕ → String → Type 0
IsNamed n connection_id = (j : ℕ) × (j ≤ n) × (connection_id ≡ "conn-" +++ show_ℕ j)

-- A connection has its own channel, has a name, and shows on its socket what was sent to it.
abbrev pub IsOpen : ℕ → AppState → SocketTask → Type 0
IsOpen n app task =
    (task.session.outbound_tx ≡ some task.outbound_rx)
    × IsNamed n task.session.connection_id
    × IsFaithful task app

abbrev pub Differs : SocketTask → SocketTask → Type 0
Differs t u = (t.session.connection_id ≢ u.session.connection_id) × (t.outbound_rx ≢ u.outbound_rx)

-- No two connections have the same name or the same channel.
abbrev pub Apart : List SocketTask → Type 0
Apart [] = Unit
Apart (t ∷ ts) = All (Differs t) ts × Apart ts

pub append-Apart :
    (ts : List SocketTask) (u : SocketTask)
    → All (λ (t : SocketTask). Differs t u) ts
    → Apart ts
    → Apart (ts ++ u ∷ [])
append-Apart [] u h a = (tt, tt)
append-Apart (t ∷ ts) u h a = (append-All (Differs t) ts u h.0 a.0, append-Apart ts u h.1 a.1)

pub remove_at-Apart : (ts : List SocketTask) (i : ℕ) → Apart ts → Apart (remove_at ts i)
remove_at-Apart [] i a = a
remove_at-Apart (t ∷ ts) zero a = a.1
remove_at-Apart (t ∷ ts) (suc i) a = (remove_at-All (Differs t) ts i a.0, remove_at-Apart ts i a.1)

-- A connection with the name and the channel of the one in its place.
module _ (t t' : SocketTask) (same_name : t'.session.connection_id ≡ t.session.connection_id)
    (same_channel : t'.outbound_rx ≡ t.outbound_rx) where
  pub set-Apart :
      (ts : List SocketTask) (i : ℕ) → get_elem? ts i ≡ some t → Apart ts → Apart (set ts i t')
  set-Apart [] i e a = cc
  set-Apart (u ∷ us) zero e a = (
    map-All
        (λ w d. (
          λ same.
              (subst (λ (x : SocketTask). Differs x w) (some-injective u t e) d).0
                (sym same_name ∙ same),
          λ same.
              (subst (λ (x : SocketTask). Differs x w) (some-injective u t e) d).1
                (sym same_channel ∙ same),
        ))
        us a.0,
    a.1,
  )
  set-Apart (u ∷ us) (suc i) e a =
      let d = All-get_elem? (Differs u) us i t e a.0 in
      (
        set-All (Differs u) us i t'
            (λ same. d.0 (same ∙ same_name), λ same. d.1 (same ∙ same_channel)) a.0,
        set-Apart us i e a.1,
      )

pub record IsHeld (n : ℕ) (c : Connections) : Type 0 where
  pub counted : c.app.next_connection_id ≡ n + 1
  pub registered : IsRegistered c.app.room_manager
  pub sockets : All (IsOpen n c.app) c.open_sockets
  pub apart : Apart c.open_sockets

-- Whatever else the server does only adds to what was sent.
pub IsOpen-mono :
    (n : ℕ) (app app' : AppState)
    → Extends (sent_of app) (sent_of app')
    → (t : SocketTask) → IsOpen n app t
    → IsOpen n app' t
IsOpen-mono n app app' adds t (own, named, shown) =
    (own, named, IsFaithful-mono t app app' adds shown)

pub take_turn-IsHeld : (n k : ℕ) (c : Connections) → IsHeld n c → IsHeld n (take_turn k c)
unfolding take_turn manager_step
take_turn-IsHeld n k c h = record {
  counted = h.counted;
  registered = manager_step-IsRegistered (turn k) c.app.room_manager h.registered;
  sockets =
      map-All
        (IsOpen-mono n c.app (take_turn k c).app (manager_step-Extends c.app.room_manager (turn k)))
        c.open_sockets h.sockets;
  apart = h.apart;
}

pub close_socket-Kept :
    (task : SocketTask) (app : AppState)
    → IsRegistered app.room_manager
    → Kept app (close_socket task app)
unfolding close_socket manager_step
close_socket-Kept task app v = elim (Option-cases task.session.current_room_id) [
  | inl e ↦ rw (e, close_socket) (Kept-refl app v)
  | inr (room_id, e) ↦
      let step = call_disconnect room_id task.session.connection_id in
      rw (e, close_socket)
        (record {
          registered = manager_step-IsRegistered step app.room_manager v;
          same_count = refl;
          extends = manager_step-Extends app.room_manager step;
        })
]
