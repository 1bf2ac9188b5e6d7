-- ===== src/Room/Connection/Distinct.antt =====
-- Whose token is whose (src/room.rs: handle_join, handle_resume).
use mathlib.Core.Option.{some-injective}
use text.Mathlib.TextLemmas.{append_cancel_left}
use gb_mahjong_server_rust.Prelude.{◌≡◌, sym, ap, ◌∙◌, some, String, string_eq}
use gb_mahjong_server_rust.Prelude.Text.{◌+++◌}
use gb_mahjong_server_rust.HashMap.{get}
use gb_mahjong_server_rust.Proto.Client.{Seat, seat_eq}
use gb_mahjong_server_rust.Room.State.{PlayerSlot, RoomState}
use gb_mahjong_server_rust.Room.Seating.{resume_token_for}
use gb_mahjong_server_rust.Room.Invariant.{IsFiled, IsWellFormed}

resume_token_for-injective :
    (room_id user_id other : String)
    → resume_token_for room_id user_id ≡ resume_token_for room_id other
    → user_id ≡ other
unfolding resume_token_for
resume_token_for-injective room_id user_id other same = append_cancel_left "-" user_id other (
    append_cancel_left room_id ("-" +++ user_id) ("-" +++ other)
      (append_cancel_left "resume-" (room_id +++ "-" +++ user_id) (room_id +++ "-" +++ other) same))

-- In a well-formed room no two seats have the same token, so a token opens one seat only.
pub resume_token-injective :
    (s : RoomState) (seat other : Seat) (player neighbour : PlayerSlot)
    → IsWellFormed s
    → get seat s.players_by_seat ≡ some player
    → get other s.players_by_seat ≡ some neighbour
    → player.resume_token ≡ neighbour.resume_token
    → seat ≡ other
resume_token-injective s seat other player neighbour v here there same =
    let mine : IsFiled s.room_id s.user_to_seat seat player = v.filed seat player here in
    let theirs : IsFiled s.room_id s.user_to_seat other neighbour = v.filed other neighbour there in
    let user : player.user_id ≡ neighbour.user_id =
      resume_token_for-injective s.room_id player.user_id neighbour.user_id
        (sym mine.token ∙ same ∙ theirs.token) in
    some-injective seat other (sym mine.owner ∙ ap (λ u. get u s.user_to_seat) user ∙ theirs.owner)
