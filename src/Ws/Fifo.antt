-- ===== src/Ws/Fifo.antt =====
-- A connection's socket shows its channel in order (src/ws.rs: handle_socket).
use mathlib.Core.Option.{some-injective}
use gb_mahjong_server_rust.Prelude.{
  ℕ, zero, ◌≡◌, refl, sym, ap, ◌∙◌, inl, inr, Bool, true, false, Option, none, some, List, [], ◌∷◌,
  ◌++◌, length, length-append, arith, append_assoc, filter_map, Option-cases, subst,
}
use gb_mahjong_server_rust.Proto.Client.{ClientFrame, ServerFrame}
use gb_mahjong_server_rust.World.{ConnectionSender}
use gb_mahjong_server_rust.Room.Extends.{Extends}
use gb_mahjong_server_rust.App.{AppState}
use gb_mahjong_server_rust.Ws.Session.{ConnectionSession}
use gb_mahjong_server_rust.Ws.Frame.{handle_client_frame}
use gb_mahjong_server_rust.Ws.Socket.{
  SocketEvent, SocketTask, Flow, continue, break, panic, proceed, receive_outbound, socket_step,
  open_socket, nth, channel,
}
use gb_mahjong_server_rust.Ws.Wire.{sent_of, AddsTo, refuse-AddsTo, handle_payload-AddsTo}

filter_map-append :
    {A B : Type 0} (f : A → Option B) (xs ys : List A)
    → filter_map f (xs ++ ys) ≡ filter_map f xs ++ filter_map f ys
filter_map-append f [] ys = refl
filter_map-append {B = B} f (x ∷ xs) ys = elim (f x) as (λ o. joined o) [
  | none ↦ filter_map-append f xs ys
  | some y ↦ ap (λ l. y ∷ l) (filter_map-append f xs ys)
]
  where
    -- The equation for the head's image.
    joined : Option B → Type 0
    joined o =
        elim o [ none ↦ filter_map f (xs ++ ys) | some y ↦ y ∷ filter_map f (xs ++ ys) ]
        ≡ elim o [ none ↦ filter_map f xs | some y ↦ y ∷ filter_map f xs ] ++ filter_map f ys

nth-append : (xs rest : List ServerFrame) → nth (length xs) (xs ++ rest) ≡ nth zero rest
nth-append [] rest = refl
nth-append (x ∷ xs) rest = nth-append xs rest

-- The wire shows the first frames of the channel.
abbrev pub IsPrefix : SocketTask → AppState → Type 0
IsPrefix task app =
    (rest : List ServerFrame) × (channel task.outbound_rx app.room_manager.world
      ≡ task.wire ++ rest)

-- It shows all that the task received.
abbrev pub IsFaithful : SocketTask → AppState → Type 0
IsFaithful task app = IsPrefix task app × (length task.wire ≡ task.received)

channel-Extends :
    (tx : ConnectionSender) (app app' : AppState)
    → Extends (sent_of app) (sent_of app')
    → (more : List ServerFrame) × (channel tx app'.room_manager.world
        ≡ channel tx app.room_manager.world ++ more)
channel-Extends tx app app' (l, e) = (_, ap (filter_map _) e ∙ filter_map-append _ (sent_of app) l)

pub IsFaithful-mono :
    (task : SocketTask) (app app' : AppState)
    → Extends (sent_of app) (sent_of app')
    → IsFaithful task app
    → IsFaithful task app'
IsFaithful-mono task app app' adds ((rest, shown), all) =
    let (more, longer) = channel-Extends task.outbound_rx app app' adds in
    ((rest ++ more, longer ∙ ap (λ x. x ++ more) shown ∙ append_assoc task.wire rest more), all)

-- After a round the loop has shown what it received, and a loop that ends has shown a part.
unfoldable pub Shows : Flow → Type 0
Shows (continue task app) = IsFaithful task app
Shows (break task app) = IsPrefix task app
Shows panic = Unit

proceed-Shows :
    (task : SocketTask) (app : AppState) (o : Option (ConnectionSession × AppState))
    → IsFaithful task app
    → AddsTo app o
    → Shows (proceed task o)
unfolding proceed Shows
proceed-Shows task app none v adds = tt
proceed-Shows task app (some (session, app')) v adds = IsFaithful-mono task app app' adds v

receive_outbound-Shows :
    (is_sent : Bool) (task : SocketTask) (app : AppState) (next : Option ServerFrame)
    → next ≡ nth task.received (channel task.outbound_rx app.room_manager.world)
    → IsFaithful task app
    → Shows (receive_outbound is_sent next task app)
unfolding receive_outbound Shows
receive_outbound-Shows is_sent task app none e v = v
receive_outbound-Shows false task app (some frame) e (prefix, all) = prefix
receive_outbound-Shows true task app (some frame) e (([], shown), all) =
    let lost : nth task.received (channel task.outbound_rx app.room_manager.world) ≡ none =
      rw (shown, ← all) (nth-append task.wire []) in
    cc
receive_outbound-Shows true task app (some frame) e ((x ∷ rest, shown), all) =
    let next : nth task.received (channel task.outbound_rx app.room_manager.world) ≡ some x =
      rw (shown, ← all) (nth-append task.wire (x ∷ rest)) in
    let same : frame ≡ x = some-injective frame x (e ∙ next) in
    (
      (rest, shown ∙ rw same (sym (append_assoc task.wire (x ∷ []) rest))),
      let longer = length-append task.wire (frame ∷ []) in omega arith,
    )

module _ (decode : List ℕ → Option ClientFrame) where
  pub socket_step-Shows :
      (event : SocketEvent) (task : SocketTask) (app : AppState)
      → IsFaithful task app
      → Shows (socket_step decode event task app)
  unfolding socket_step handle_client_frame Shows
  socket_step-Shows (SocketEvent.outbound is_sent) task app v =
      receive_outbound-Shows is_sent task app _ refl v
  socket_step-Shows (SocketEvent.binary payload) task app v = elim (Option-cases (decode payload)) [
    | inl e ↦
        rw (e, socket_step) (proceed-Shows task app _ v (refuse-AddsTo _ _ _ task.session app))
    | inr (frame, e) ↦
        rw (e, socket_step)
          (proceed-Shows task app _ v
            (handle_payload-AddsTo frame.request_id frame.payload task.session app))
  ]
  socket_step-Shows SocketEvent.text task app v =
      proceed-Shows task app _ v (refuse-AddsTo _ _ _ task.session app)
  socket_step-Shows (SocketEvent.ping true) task app v = v
  socket_step-Shows (SocketEvent.ping false) task app v = v.0
  socket_step-Shows SocketEvent.pong task app v = v
  socket_step-Shows SocketEvent.senders_dropped task app v = v.0
  socket_step-Shows SocketEvent.close task app v = v.0
  socket_step-Shows SocketEvent.receive_error task app v = v.0
  socket_step-Shows SocketEvent.stream_end task app v = v.0

  -- The states that a connection's task meets, from its opening with the channel `tx`: its own rounds,
  -- and between these whatever else the server does, which may only add to what was sent.
  pub data Reaches (tx : ConnectionSender) (start : AppState) : SocketTask → AppState → Type 0 where
    opened : Reaches tx start (open_socket tx start).0 (open_socket tx start).1
    round :
        {task task' : SocketTask} {app app' : AppState} (event : SocketEvent)
        → socket_step decode event task app ≡ continue task' app'
        → Reaches tx start task app
        → Reaches tx start task' app'
    elsewhere :
        {task : SocketTask} {app app' : AppState}
        → Extends (sent_of app) (sent_of app')
        → Reaches tx start task app
        → Reaches tx start task app'

  -- If nothing was sent to a connection's channel before the connection is opened, then under every
  -- interleaving what it has written on its socket is the beginning of what was sent to the channel, in
  -- the same order, with nothing lost and nothing twice: exactly as many frames as the task has
  -- received, while its loop goes on.
  pub Reaches-IsFaithful :
      (tx : ConnectionSender) (start : AppState) (task : SocketTask) (app : AppState)
      → channel tx start.room_manager.world ≡ []
      → Reaches tx start task app
      → IsFaithful task app
  unfolding open_socket Shows
  Reaches-IsFaithful tx start task app fresh opened = (([], fresh), refl)
  Reaches-IsFaithful tx start task app fresh (round {task = before} {app = app0} event e reached) =
      subst Shows e (
        socket_step-Shows event before app0 (Reaches-IsFaithful tx start before app0 fresh reached))
  Reaches-IsFaithful tx start task app fresh (elsewhere {app = app0} adds reached) =
      IsFaithful-mono task app0 app adds (Reaches-IsFaithful tx start task app0 fresh reached)
