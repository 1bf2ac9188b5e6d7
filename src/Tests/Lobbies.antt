-- ===== src/Tests/Lobbies.antt =====
-- A room whose players come, get ready, leave and return, and its lobby (src/room.rs: run_room_task).
use mathlib.Core.Bool.{true≢false}
use mathlib.Core.Option.{none-ne-some, some-injective}
use gb_mahjong_server_rust.Prelude.{
  string_eq, String, ◌≢◌, eq_iff, sym, ◌∙◌, ◌↔◌, ◌≡◌, refl, false, some, none, List, [], ◌∷◌, ◌++◌,
}
use gb_mahjong_server_rust.Proto.Client.{Seat, PlayerStatus, seat_number}
use gb_mahjong_server_rust.Engine.{noop}
use gb_mahjong_server_rust.Room.Seating.{resume_token_for}
use gb_mahjong_server_rust.Room.Action.{
  join, RoomCommand, ready, resume_session, disconnect, run_room_task,
}
use gb_mahjong_server_rust.Room.Lobby.{
  Lobby, lobby_steps, empty_lobby, sit, seat_held_by, free_seat, change_of, return, go_away,
}
use gb_mahjong_server_rust.Room.Lobby.View.{view}
use gb_mahjong_server_rust.Room.State.{seat_for_connection}
use gb_mahjong_server_rust.Room.Lobby.Linked.{EnterOnce}
use gb_mahjong_server_rust.Room.Lobby.Intact.{
  IsIntact, SitsOn, run_room_task-IsIntact, run_room_task-exact,
}
use gb_mahjong_server_rust.Room.Lobby.Refines.{run_room_task-refines}
use gb_mahjong_server_rust.Tests.Data.{
  quiet_world, empty_room, conn, join_as, resume_as, ready_request, joined_two,
}

abbrev evening : List RoomCommand
evening =
    joined_two
    ++ ready "r3" "conn-1" ready_request
      ∷ disconnect "conn-1"
      ∷ resume_session "r4" (conn "conn-3" 3) (resume_as "ann" "resume-alpha-ann")
      ∷ disconnect "conn-2"
      ∷ []

run_room_task-IsIntact_example : IsIntact (run_room_task evening empty_room).state
run_room_task-IsIntact_example = run_room_task-IsIntact "alpha" noop quiet_world evening

-- Ann comes and goes, and bob comes.
abbrev morning : List RoomCommand
morning =
    join "r1" (conn "conn-1" 1) (join_as "ann")
    ∷ disconnect "conn-1"
    ∷ join "r2" (conn "conn-2" 2) (join_as "bob")
    ∷ []

ann_is_not_bob : ◌≢◌ {A = String} "conn-1" "conn-2"
ann_is_not_bob same = true≢false (sym ((eq_iff "conn-1" "conn-2").1 same) ∙ refl)

morning-once : EnterOnce morning
morning-once = (
  (λ c e f. none-ne-some c f, (λ c e f. ann_is_not_bob (some-injective _ _ (e ∙ sym f)), tt)),
  ((λ c e f. none-ne-some c e, tt), (tt, tt)),
)

run_room_task-exact_example :
    (seat_for_connection (run_room_task morning empty_room).state "conn-2" ≡ some Seat.south)
    ↔ SitsOn (run_room_task morning empty_room).state Seat.south "conn-2"
run_room_task-exact_example =
    run_room_task-exact "alpha" noop quiet_world morning "conn-2" Seat.south morning-once

abbrev last_lobby : Lobby
last_lobby = lobby_steps evening (empty_lobby "alpha" "match-alpha" "hand-1")

run_room_task-refines_example : view (run_room_task evening empty_room).state ≡ last_lobby
run_room_task-refines_example = run_room_task-refines "alpha" noop quiet_world evening

ann_returned :
    last_lobby.member_at Seat.east
    ≡ some (record {
      user_id = "ann";
      status = PlayerStatus.ready;
      auto_play = false;
      connection = some "conn-3";
    })
unfolding lobby_steps sit seat_held_by free_seat change_of return go_away resume_token_for
    seat_number
ann_returned = refl

bob_away :
    (last_lobby.member_at Seat.south
      ≡ some (record {
        user_id = "bob";
        status = PlayerStatus.joined;
        auto_play = false;
        connection = none;
      }))
    × (last_lobby.seat_of "conn-1" ≡ none)
    × (last_lobby.seat_of "conn-3" ≡ some Seat.east)
unfolding lobby_steps sit seat_held_by free_seat change_of return go_away resume_token_for
    seat_number
bob_away = (refl, refl, refl)
