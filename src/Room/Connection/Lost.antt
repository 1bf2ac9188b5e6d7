-- ===== src/Room/Connection/Lost.antt =====
-- Repeated and late disconnects (src/room.rs: handle_disconnect).
use gb_mahjong_server_rust.Prelude.{◌≡◌, refl, sym, ◌∙◌, none, String, string_eq, eq_self, subst}
use gb_mahjong_server_rust.HashMap.{get}
use gb_mahjong_server_rust.HashMap.Laws.{get-remove}
use gb_mahjong_server_rust.Room.State.{Room, RoomState}
use gb_mahjong_server_rust.Room.Reconnect.{handle_disconnect, drop_connection, detach}
use gb_mahjong_server_rust.Room.Seating.Cases.{disconnect_cases}
use gb_mahjong_server_rust.Room.Seating.Renumber.{leave-Renumbers}

-- A connection that the room does not know.
pub handle_disconnect-unknown :
    (connection_id : String) (r : Room)
    → get connection_id r.state.connection_to_user ≡ none
    → handle_disconnect connection_id r ≡ r
unfolding handle_disconnect
handle_disconnect-unknown connection_id r unknown = rw (unknown, handle_disconnect) refl

drop_connection-forgets :
    (connection_id : String) (s : RoomState)
    → get connection_id (drop_connection connection_id s).connection_to_user ≡ none
unfolding drop_connection
drop_connection-forgets connection_id s =
    get-remove connection_id connection_id s.connection_to_user ∙ rw (eq_self connection_id)

handle_disconnect-forgets :
    (connection_id : String) (r : Room)
    → get connection_id (handle_disconnect connection_id r).state.connection_to_user ≡ none
unfolding detach
handle_disconnect-forgets connection_id r =
    disconnect_cases (λ r'. get connection_id r'.state.connection_to_user ≡ none) r connection_id
      (λ unknown. unknown) (λ user_id _. drop_connection-forgets connection_id r.state)
      (λ user_id seat player _ _ _.
        let dropped : Room = record r { state = drop_connection connection_id r.state } in
        let (n, same) = leave-Renumbers seat player dropped in
        subst (λ (s : RoomState). get connection_id s.connection_to_user ≡ none) (sym same)
          (drop_connection-forgets connection_id r.state))

-- A second disconnect of a connection does nothing: it changes no table, takes no number and sends no
-- frame.
pub handle_disconnect-twice :
    (connection_id : String) (r : Room)
    → handle_disconnect connection_id (handle_disconnect connection_id r)
      ≡ handle_disconnect connection_id r
handle_disconnect-twice connection_id r =
    handle_disconnect-unknown connection_id (handle_disconnect connection_id r)
      (handle_disconnect-forgets connection_id r)
