-- ===== src/Room/Request/Numbers.antt =====
-- The numbers of an action that stand for tiles, seats and kinds of the schema (src/room.rs:
-- build_candidate_action).
use gb_mahjong_server_rust.Prelude.{string_eq, ◌≡◌, Bool, true, false, ◌&&◌, all, nat_eq, arith}
use gb_mahjong_server_rust.Proto.Enum.Laws.{in_schema}
use gb_mahjong_server_rust.Proto.Client.{
  Action, discard, claim, declare_win, pass, supplemental_kong, auto_play_toggle, ClaimAction,
  DeclareWinAction, claim_kind_eq, win_type_eq,
}
use gb_mahjong_server_rust.Proto.Engine.{action_kind_enum}

-- An action for the engine whose tiles, seats and kinds are all numbers of the schema.
abbrev pub is_in_schema : Action → Bool
is_in_schema (discard a) = in_schema 44 a.tile && true
is_in_schema (claim a) =
    in_schema 6 a.claim_kind
    && (in_schema 44 a.target_tile
        && (all (in_schema 44) a.consume_tiles && (in_schema 5 a.source_seat && true)))
is_in_schema (declare_win a) =
    in_schema 5 a.win_type && (in_schema 44 a.winning_tile && (in_schema 5 a.source_seat && true))
is_in_schema (pass a) = true
is_in_schema (supplemental_kong a) = in_schema 44 a.tile && true
is_in_schema (auto_play_toggle a) = false

pub both : (a b : Bool) → (a && b) ≡ true → (a ≡ true) × (b ≡ true)
both a b h = ground arith

-- The numbers of a claim, and of a win, that the contexts parse again.
pub claim_parts :
    (a : ClaimAction)
    → is_in_schema (claim a) ≡ true
    → (in_schema 6 a.claim_kind ≡ true)
      × (in_schema 44 a.target_tile ≡ true)
      × (in_schema 5 a.source_seat ≡ true)
claim_parts a h =
    let (kind, rest) = both _ _ h in
    let (tile, rest') = both _ _ rest in
    let (tiles, rest'') = both _ _ rest' in (kind, tile, (both _ true rest'').0)

pub win_parts :
    (a : DeclareWinAction)
    → is_in_schema (declare_win a) ≡ true
    → (in_schema 5 a.win_type ≡ true)
      × (in_schema 44 a.winning_tile ≡ true)
      × (in_schema 5 a.source_seat ≡ true)
win_parts a h =
    let (kind, rest) = both _ _ h in
    let (tile, rest') = both _ _ rest in (kind, tile, (both _ true rest').0)
