-- ===== src/Ws/Connections/Reached.antt =====
-- What holds of all connections together, in every order of their rounds and of the rooms' turns
-- (src/ws.rs: handle_socket; src/app.rs: allocate_connection_id).
use text.Mathlib.TextLemmas.{append_cancel_left}
use gb_mahjong_server_rust.Prelude.{
  ℕ, suc, ◌+◌, ◌<◌, ◌≡◌, ◌≢◌, refl, sym, ◌∙◌, subst, ◌⊎◌, inl, inr, some, List, [], ◌∷◌, String,
  All, Option, Option-cases, arith, u64_mod, nat_eq,
}
use gb_mahjong_server_rust.Prelude.Decimal.Text.{show_ℕ-injective}
use gb_mahjong_server_rust.Prelude.Positions.{
  get_elem?, All-get_elem?, set-All, append-All, map-All, remove_at-All,
}
use gb_mahjong_server_rust.Proto.Client.{ClientFrame}
use gb_mahjong_server_rust.Engine.{RuleEngineHandle}
use gb_mahjong_server_rust.World.{World, ConnectionSender}
use gb_mahjong_server_rust.Room.Extends.{Extends, Extends-trans}
use gb_mahjong_server_rust.Manager.{with_rule_engine}
use gb_mahjong_server_rust.Manager.Registry.{with_rule_engine-IsRegistered}
use gb_mahjong_server_rust.App.{AppState, with_room_manager, allocate_connection_id}
use gb_mahjong_server_rust.Ws.Socket.{
  SocketEvent, SocketTask, continue, break, channel, socket_step, open_socket, close_socket,
}
use gb_mahjong_server_rust.Ws.Wire.{sent_of}
use gb_mahjong_server_rust.Ws.Safety.{IsOwn, socket_step-IsSafe}
use gb_mahjong_server_rust.Ws.Fifo.{Shows, socket_step-Shows}
use gb_mahjong_server_rust.Ws.Connections.{
  Connections, connect, settle, receive, Meets, began, connected, received, turned,
}
use gb_mahjong_server_rust.Ws.Connections.Held.{
  IsOpen, Differs, append-Apart, remove_at-Apart, set-Apart, IsHeld, IsOpen-mono, take_turn-IsHeld,
  close_socket-Kept,
}
use gb_mahjong_server_rust.Ws.Connections.Kept.{FlowKept, socket_step-Kept}

connect-IsHeld :
    (n : ℕ) (tx : ConnectionSender) (c : Connections)
    → n + 2 < u64_mod
    → channel tx c.app.room_manager.world ≡ []
    → All (λ (task : SocketTask). task.outbound_rx ≢ tx) c.open_sockets
    → IsHeld n c
    → IsHeld (suc n) (connect tx c)
unfolding connect open_socket allocate_connection_id
connect-IsHeld n tx c room empty new_channel h = record {
  counted = let same = h.counted in omega arith;
  registered = h.registered;
  sockets =
      append-All (IsOpen (suc n) (connect tx c).app) c.open_sockets (open_socket tx c.app).0
        (
          refl,
          (c.app.next_connection_id, let same = h.counted in omega arith, refl),
          (([], empty), refl),
        )
        (map-All still_open c.open_sockets h.sockets);
  apart =
      append-Apart c.open_sockets (open_socket tx c.app).0
        (new_name c.open_sockets h.sockets new_channel) h.apart;
}
  where
    still_open : (t : SocketTask) → IsOpen n c.app t → IsOpen (suc n) (connect tx c).app t
    still_open t (own, (j, low, e), shown) = (own, (j, omega arith, e), shown)

    new_name :
        (ts : List SocketTask)
        → All (IsOpen n c.app) ts
        → All (λ (task : SocketTask). task.outbound_rx ≢ tx) ts
        → All (λ (t : SocketTask). Differs t (open_socket tx c.app).0) ts
    new_name [] opened other = tt
    new_name (t ∷ ts) ((own, (j, low, e), shown), opened) (apart, other) = (
      (
        λ same.
            let equal : j ≡ c.app.next_connection_id =
              show_ℕ-injective j c.app.next_connection_id
                (append_cancel_left "conn-" _ _ (sym e ∙ same)) in
            let count = h.counted in absurd (omega arith),
        apart,
      ),
      new_name ts opened other,
    )

module _ (decode : List ℕ → Option ClientFrame) where
  -- A round of one connection.
  module _ (n i : ℕ) (c : Connections) (task : SocketTask) (event : SocketEvent)
      (here : get_elem? c.open_sockets i ≡ some task) (h : IsHeld n c) where
    others :
        (app' : AppState)
        → Extends (sent_of c.app) (sent_of app')
        → All (IsOpen n app') c.open_sockets
    others app' adds = map-All (IsOpen-mono n c.app app' adds) c.open_sockets h.sockets

    settle-IsHeld :
        (task' : SocketTask) (app' : AppState)
        → (socket_step decode event task c.app ≡ continue task' app')
          ⊎ (socket_step decode event task c.app ≡ break task' app')
        → IsOwn task.session.connection_id task.outbound_rx task'.session
        → IsHeld n (settle i (socket_step decode event task c.app) c)
    unfolding settle Shows
    settle-IsHeld task' app' (inl e) (name, own) =
        let (kept, channel) =
          subst (FlowKept c.app h.registered task) e
            (socket_step-Kept c.app h.registered decode event task) in
        let (_, named, faithful) =
          All-get_elem? (IsOpen n c.app) c.open_sockets i task here h.sockets in
        let shown = subst Shows e (socket_step-Shows decode event task c.app faithful) in
        rw (e, settle)
          (record {
            counted = kept.same_count ∙ h.counted;
            registered = kept.registered;
            sockets =
                set-All (IsOpen n app') c.open_sockets i task'
                  (rw channel own, rw name named, shown) (others app' kept.extends);
            apart = set-Apart task task' name channel c.open_sockets i here h.apart;
          })
    settle-IsHeld task' app' (inr e) own =
        let (kept, channel) =
          subst (FlowKept c.app h.registered task) e
            (socket_step-Kept c.app h.registered decode event task) in
        let closed = close_socket-Kept task' app' kept.registered in
        rw (e, settle)
          (record {
            counted = closed.same_count ∙ kept.same_count ∙ h.counted;
            registered = closed.registered;
            sockets = remove_at-All (IsOpen n (close_socket task' app')) c.open_sockets i (
                others (close_socket task' app')
                  (Extends-trans (sent_of c.app) kept.extends closed.extends));
            apart = remove_at-Apart c.open_sockets i h.apart;
          })

  receive-IsHeld :
      (n i : ℕ) (event : SocketEvent) (c : Connections)
      → IsHeld n c
      → IsHeld n (receive decode i event c)
  unfolding receive
  receive-IsHeld n i event c h = elim (Option-cases (get_elem? c.open_sockets i)) [
    | inl gone ↦ rw (gone, receive) h
    | inr (task, here) ↦
        let (own, _, _) = All-get_elem? (IsOpen n c.app) c.open_sockets i task here h.sockets in
        let (task', app', ends, own') =
          socket_step-IsSafe task.session.connection_id task.outbound_rx decode event task c.app
            (refl, own) in
        rw (here, receive) (settle-IsHeld n i c task event here h task' app' ends own')
  ]

  -- From the start, while fewer connections are opened than the 64-bit counter has numbers, and in every order of the connections'
  -- rounds, of their openings and closings and of the rooms' turns: the registry of the rooms is in
  -- order, no two open connections have the same name or the same channel, each has its own channel in
  -- its session, and each has written on its socket the beginning of what was sent to its channel, in
  -- order and without a gap.
  pub Meets-IsHeld :
      (rule_engine : RuleEngineHandle) (send_error : String) (w : World) (n : ℕ) (c : Connections)
      → n + 1 < u64_mod
      → Meets decode (with_room_manager (with_rule_engine rule_engine send_error w)) n c
      → IsHeld n c
  unfolding with_room_manager
  Meets-IsHeld rule_engine send_error w n c room began = record {
    counted = refl;
    registered = with_rule_engine-IsRegistered rule_engine send_error w;
    sockets = tt;
    apart = tt;
  }
  Meets-IsHeld rule_engine send_error w n c room (connected {n = m} {c = d} tx empty fresh met) =
      connect-IsHeld m tx d (omega arith) empty fresh
        (Meets-IsHeld rule_engine send_error w m d (omega arith) met)
  Meets-IsHeld rule_engine send_error w n c room (received {c = d} i event met) =
      receive-IsHeld n i event d (Meets-IsHeld rule_engine send_error w n d room met)
  Meets-IsHeld rule_engine send_error w n c room (turned {c = d} k met) =
      take_turn-IsHeld n k d (Meets-IsHeld rule_engine send_error w n d room met)
