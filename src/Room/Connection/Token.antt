-- ===== src/Room/Connection/Token.antt =====
-- Who may resume (src/room.rs: handle_resume).
use gb_mahjong_server_rust.Prelude.{
  ◌≡◌, ◌≢◌, refl, sym, ap, ◌∙◌, ◌⊎◌, inl, inr, none, some, false, String, [], ◌∷◌, ◌++◌, string_eq,
  ◌==◌, eq_iff, wrapping_add,
}
use mathlib.Core.Option.{some-injective}
use gb_mahjong_server_rust.HashMap.{get}
use gb_mahjong_server_rust.Proto.Enum.{as_i32}
use gb_mahjong_server_rust.Proto.Client.{
  Seat, RejectCode, ResumeSessionRequest, ServerPayload, seat_eq, reject_code_enum,
}
use gb_mahjong_server_rust.World.{ConnectionHandle, send_frame, send}
use gb_mahjong_server_rust.Room.State.{Room, RoomState, PlayerSlot}
use gb_mahjong_server_rust.Room.Frames.{build_action_rejected}
use gb_mahjong_server_rust.Room.Invariant.{IsWellFormed}
use gb_mahjong_server_rust.Room.Seating.{resume_token_for}
use gb_mahjong_server_rust.Room.Reconnect.{handle_resume, refuse_resume, attach}
use gb_mahjong_server_rust.Room.Seating.Cases.{resume_cases}
use gb_mahjong_server_rust.Room.Seating.Renumber.{Renumbers, accept_resume-Renumbers}

-- The connection itself was told, under the room's next number, and the room is otherwise as it was.
abbrev pub IsTurnedAway : String → ConnectionHandle → ResumeSessionRequest → Room → Room → Type 0
IsTurnedAway request_id connection request r r' =
    (reject_code : RejectCode) × (message : String) × (r'.state
      ≡ record r.state { next_event_seq = wrapping_add r.state.next_event_seq 1 })
    × (r'.world.sent
        ≡ r.world.sent
          ++ (
            connection.outbound_tx,
            record {
              event_seq = r.state.next_event_seq;
              payload = some (
                  ServerPayload.action_rejected (record {
                    request_id = request_id;
                    reject_code = as_i32 reject_code;
                    message = message;
                    expected_event_seq = request.last_received_event_seq;
                    actual_event_seq = r.state.next_event_seq;
                    action_window_id = 0;
                  }));
            },
          )
            ∷ [])

refuse_resume-IsTurnedAway :
    (request_id : String) (connection : ConnectionHandle) (request : ResumeSessionRequest)
    (reject_code : RejectCode) (message : String) (r : Room)
    → IsTurnedAway request_id connection request r
        (refuse_resume request_id connection request reject_code message r)
unfolding refuse_resume send_frame send build_action_rejected
refuse_resume-IsTurnedAway request_id connection request reject_code message r =
    (reject_code, message, refl, refl)

-- The two ways a resume ends.
abbrev pub ResumeOutcome : String → ConnectionHandle → ResumeSessionRequest → Room → Room → Type 0
ResumeOutcome request_id connection request r r' =
    (((get request.user_id r.state.user_to_seat ≡ none)
        ⊎ (request.resume_token ≢ resume_token_for r.state.room_id request.user_id))
      × IsTurnedAway request_id connection request r r')
    ⊎ ((seat : Seat) × (player : PlayerSlot) × (get request.user_id r.state.user_to_seat
          ≡ some seat)
        × (get seat r.state.players_by_seat ≡ some player)
        × (request.resume_token ≡ resume_token_for r.state.room_id request.user_id)
        × Renumbers (attach connection seat player r.state) r'.state)

token_of :
    (request : ResumeSessionRequest) (seat : Seat) (player : PlayerSlot) (s : RoomState)
    → IsWellFormed s
    → get request.user_id s.user_to_seat ≡ some seat
    → get seat s.players_by_seat ≡ some player
    → player.resume_token ≡ resume_token_for s.room_id request.user_id
token_of request seat player s v found there =
    let (p, here, mine) = v.seated request.user_id seat found in
    let own : p.resume_token ≡ resume_token_for s.room_id p.user_id = (v.filed seat p here).token in
    let same : player ≡ p = some-injective player p (sym there ∙ here) in
    ap (λ (q : PlayerSlot). q.resume_token) same ∙ own ∙ ap (resume_token_for s.room_id) mine

-- In a well-formed room, whoever asks to resume is attached to a seat exactly when the user has one
-- and the token is the user's: the text `resume-`, the room's id, `-` and the user's id. Every other
-- request is told so with one refusal on its own connection, and changes nothing in the room but the
-- next number.
pub handle_resume-outcome :
    (request_id : String) (connection : ConnectionHandle) (request : ResumeSessionRequest)
    (r : Room)
    → IsWellFormed r.state
    → ResumeOutcome request_id connection request r (handle_resume request_id connection request r)
handle_resume-outcome request_id connection request r v =
    resume_cases (ResumeOutcome request_id connection request r) r request_id connection request
      (λ unknown. inl (inl unknown, refuse_resume-IsTurnedAway request_id connection request _ _ r))
      (λ seat found lost. let (p, here, mine) = v.seated request.user_id seat found in cc)
      (λ seat player found there other. inl (
        inr (λ same. mismatch seat player found there other same),
        refuse_resume-IsTurnedAway request_id connection request _ _ r,
      ))
      (λ seat player found there same. inr (
        seat,
        player,
        found,
        there,
        sym same ∙ token_of request seat player r.state v found there,
        accept_resume-Renumbers connection seat player r,
      ))
  where
    mismatch :
        (seat : Seat) (player : PlayerSlot)
        → get request.user_id r.state.user_to_seat ≡ some seat
        → get seat r.state.players_by_seat ≡ some player
        → (player.resume_token == request.resume_token) ≡ false
        → request.resume_token ≢ resume_token_for r.state.room_id request.user_id
    mismatch seat player found there other same =
        let token = token_of request seat player r.state v found there in
        let equal = (eq_iff player.resume_token request.resume_token).1 (token ∙ sym same) in cc
