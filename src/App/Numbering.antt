-- ===== src/App/Numbering.antt =====
-- The names of the connections (src/app.rs: allocate_connection_id).
use text.Mathlib.TextLemmas.{append_cancel_left}
use gb_mahjong_server_rust.Prelude.{ℕ, zero, suc, ◌+◌, ◌<◌, ◌≡◌, String, u64_mod, arith}
use gb_mahjong_server_rust.Prelude.Decimal.Text.{show_ℕ-injective}
use gb_mahjong_server_rust.App.{AppState, allocate_connection_id}

-- The state after so many connections.
pub after_connections : ℕ → AppState → AppState
after_connections zero app = app
after_connections (suc k) app = after_connections k (allocate_connection_id app).1

-- The name of the connection behind so many others.
abbrev pub connection_id_at : ℕ → AppState → String
connection_id_at k app = (allocate_connection_id (after_connections k app)).0

next_connection_id-after_connections :
    (k : ℕ) (app : AppState)
    → app.next_connection_id + k < u64_mod
    → (after_connections k app).next_connection_id ≡ app.next_connection_id + k
unfolding after_connections allocate_connection_id
next_connection_id-after_connections zero app room = omega arith
next_connection_id-after_connections (suc k) app room =
    let rest =
      next_connection_id-after_connections k (allocate_connection_id app).1 (omega arith) in
    omega arith

-- Until the 64-bit counter wraps around, no two connections have the same name.
pub connection_id_at-injective :
    (j k : ℕ) (app : AppState)
    → app.next_connection_id + j < u64_mod
    → app.next_connection_id + k < u64_mod
    → connection_id_at j app ≡ connection_id_at k app
    → j ≡ k
unfolding allocate_connection_id
connection_id_at-injective j k app room room' same =
    let first = next_connection_id-after_connections j app room in
    let second = next_connection_id-after_connections k app room' in
    let equal =
      show_ℕ-injective (after_connections j app).next_connection_id
        (after_connections k app).next_connection_id (append_cancel_left "conn-" _ _ same) in
    omega arith
