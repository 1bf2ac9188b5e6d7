-- ===== src/Room/Sequence/Order.antt =====
-- Lists of sent frames whose numbers do not fall.
use gb_mahjong_server_rust.Prelude.{ℕ, ◌-◌, ◌≤◌, ◌≡◌, List, [], ◌∷◌, ◌++◌, arith}
use gb_mahjong_server_rust.Proto.Client.{ServerFrame}
use gb_mahjong_server_rust.World.{ConnectionSender, World, send}
use gb_mahjong_server_rust.Room.State.{Room}

-- The numbers start at `low` or above, never fall, and end at `high` or below.
abbrev pub Ordered : ℕ → ℕ → List (ConnectionSender × ServerFrame) → Type 0
Ordered low high [] = low ≤ high
Ordered low high ((tx, frame) ∷ sent) = (low ≤ frame.event_seq) × Ordered frame.event_seq high sent

pub Ordered-mono :
    (low high high' : ℕ) (sent : List (ConnectionSender × ServerFrame))
    → high ≤ high'
    → Ordered low high sent
    → Ordered low high' sent
Ordered-mono low high high' [] h o = omega arith
Ordered-mono low high high' ((tx, frame) ∷ sent) h o =
    (o.0, Ordered-mono frame.event_seq high high' sent h o.1)

Ordered-snoc :
    (low high : ℕ) (sent : List (ConnectionSender × ServerFrame)) (tx : ConnectionSender)
    (frame : ServerFrame)
    → high ≤ frame.event_seq
    → Ordered low high sent
    → Ordered low frame.event_seq (sent ++ (tx, frame) ∷ [])
Ordered-snoc low high [] tx frame h o = omega arith
Ordered-snoc low high ((tx', frame') ∷ sent) tx frame h o =
    (o.0, Ordered-snoc frame'.event_seq high sent tx frame h o.1)

pub send-Ordered :
    (low high seq : ℕ) (tx : ConnectionSender) (frame : ServerFrame) (w : World)
    → frame.event_seq ≡ seq
    → high ≤ seq
    → Ordered low high w.sent
    → Ordered low seq (send tx frame w).sent
unfolding send
send-Ordered low high seq tx frame w e h o =
    rw (← e) (Ordered-snoc low high w.sent tx frame (omega arith) o)

-- What was sent so far is numbered in order, below the next number.
abbrev pub IsSequenced : Room → Type 0
IsSequenced r = Ordered 0 (r.state.next_event_seq - 1) r.world.sent × (1 ≤ r.state.next_event_seq)
