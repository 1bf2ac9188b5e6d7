-- ===== src/Proto/Client/Tiles.antt =====
-- The enumerations of proto/client/common/enums.proto: Tile.
use gb_mahjong_server_rust.Prelude.{ℕ, ◌≡◌, refl, String, some, List, [], ◌∷◌, PartialEq}
use gb_mahjong_server_rust.Proto.Enum.{ProtoEnum, enum_eq, numbered}

pub data Tile : Type 0 where
  unspecified unknown character_1 character_2 character_3 character_4 character_5 : Tile
  character_6 character_7 character_8 character_9 bamboo_1 bamboo_2 bamboo_3 bamboo_4 : Tile
  bamboo_5 bamboo_6 bamboo_7 bamboo_8 bamboo_9 dot_1 dot_2 dot_3 dot_4 dot_5 dot_6 dot_7 : Tile
  dot_8 dot_9 east_wind south_wind west_wind north_wind red_dragon green_dragon : Tile
  white_dragon flower_plum flower_orchid flower_bamboo flower_chrysanthemum season_spring : Tile
  season_summer season_autumn season_winter : Tile

abbrev tile_variants : List Tile
tile_variants =
    Tile.unspecified ∷ Tile.unknown ∷ Tile.character_1 ∷ Tile.character_2 ∷ Tile.character_3
    ∷ Tile.character_4 ∷ Tile.character_5 ∷ Tile.character_6 ∷ Tile.character_7 ∷ Tile.character_8
    ∷ Tile.character_9 ∷ Tile.bamboo_1 ∷ Tile.bamboo_2 ∷ Tile.bamboo_3 ∷ Tile.bamboo_4
    ∷ Tile.bamboo_5 ∷ Tile.bamboo_6 ∷ Tile.bamboo_7 ∷ Tile.bamboo_8 ∷ Tile.bamboo_9 ∷ Tile.dot_1
    ∷ Tile.dot_2 ∷ Tile.dot_3 ∷ Tile.dot_4 ∷ Tile.dot_5 ∷ Tile.dot_6 ∷ Tile.dot_7 ∷ Tile.dot_8
    ∷ Tile.dot_9 ∷ Tile.east_wind ∷ Tile.south_wind ∷ Tile.west_wind ∷ Tile.north_wind
    ∷ Tile.red_dragon ∷ Tile.green_dragon ∷ Tile.white_dragon ∷ Tile.flower_plum
    ∷ Tile.flower_orchid ∷ Tile.flower_bamboo ∷ Tile.flower_chrysanthemum ∷ Tile.season_spring
    ∷ Tile.season_summer ∷ Tile.season_autumn ∷ Tile.season_winter ∷ []

unfoldable pub tile_number : Tile → ℕ
tile_number Tile.unspecified = 0
tile_number Tile.unknown = 1
tile_number Tile.character_1 = 2
tile_number Tile.character_2 = 3
tile_number Tile.character_3 = 4
tile_number Tile.character_4 = 5
tile_number Tile.character_5 = 6
tile_number Tile.character_6 = 7
tile_number Tile.character_7 = 8
tile_number Tile.character_8 = 9
tile_number Tile.character_9 = 10
tile_number Tile.bamboo_1 = 11
tile_number Tile.bamboo_2 = 12
tile_number Tile.bamboo_3 = 13
tile_number Tile.bamboo_4 = 14
tile_number Tile.bamboo_5 = 15
tile_number Tile.bamboo_6 = 16
tile_number Tile.bamboo_7 = 17
tile_number Tile.bamboo_8 = 18
tile_number Tile.bamboo_9 = 19
tile_number Tile.dot_1 = 20
tile_number Tile.dot_2 = 21
tile_number Tile.dot_3 = 22
tile_number Tile.dot_4 = 23
tile_number Tile.dot_5 = 24
tile_number Tile.dot_6 = 25
tile_number Tile.dot_7 = 26
tile_number Tile.dot_8 = 27
tile_number Tile.dot_9 = 28
tile_number Tile.east_wind = 29
tile_number Tile.south_wind = 30
tile_number Tile.west_wind = 31
tile_number Tile.north_wind = 32
tile_number Tile.red_dragon = 33
tile_number Tile.green_dragon = 34
tile_number Tile.white_dragon = 35
tile_number Tile.flower_plum = 36
tile_number Tile.flower_orchid = 37
tile_number Tile.flower_bamboo = 38
tile_number Tile.flower_chrysanthemum = 39
tile_number Tile.season_spring = 40
tile_number Tile.season_summer = 41
tile_number Tile.season_autumn = 42
tile_number Tile.season_winter = 43

unfoldable pub tile_str_name : Tile → String
tile_str_name Tile.unspecified = "TILE_UNSPECIFIED"
tile_str_name Tile.unknown = "TILE_UNKNOWN"
tile_str_name Tile.character_1 = "TILE_CHARACTER_1"
tile_str_name Tile.character_2 = "TILE_CHARACTER_2"
tile_str_name Tile.character_3 = "TILE_CHARACTER_3"
tile_str_name Tile.character_4 = "TILE_CHARACTER_4"
tile_str_name Tile.character_5 = "TILE_CHARACTER_5"
tile_str_name Tile.character_6 = "TILE_CHARACTER_6"
tile_str_name Tile.character_7 = "TILE_CHARACTER_7"
tile_str_name Tile.character_8 = "TILE_CHARACTER_8"
tile_str_name Tile.character_9 = "TILE_CHARACTER_9"
tile_str_name Tile.bamboo_1 = "TILE_BAMBOO_1"
tile_str_name Tile.bamboo_2 = "TILE_BAMBOO_2"
tile_str_name Tile.bamboo_3 = "TILE_BAMBOO_3"
tile_str_name Tile.bamboo_4 = "TILE_BAMBOO_4"
tile_str_name Tile.bamboo_5 = "TILE_BAMBOO_5"
tile_str_name Tile.bamboo_6 = "TILE_BAMBOO_6"
tile_str_name Tile.bamboo_7 = "TILE_BAMBOO_7"
tile_str_name Tile.bamboo_8 = "TILE_BAMBOO_8"
tile_str_name Tile.bamboo_9 = "TILE_BAMBOO_9"
tile_str_name Tile.dot_1 = "TILE_DOT_1"
tile_str_name Tile.dot_2 = "TILE_DOT_2"
tile_str_name Tile.dot_3 = "TILE_DOT_3"
tile_str_name Tile.dot_4 = "TILE_DOT_4"
tile_str_name Tile.dot_5 = "TILE_DOT_5"
tile_str_name Tile.dot_6 = "TILE_DOT_6"
tile_str_name Tile.dot_7 = "TILE_DOT_7"
tile_str_name Tile.dot_8 = "TILE_DOT_8"
tile_str_name Tile.dot_9 = "TILE_DOT_9"
tile_str_name Tile.east_wind = "TILE_EAST_WIND"
tile_str_name Tile.south_wind = "TILE_SOUTH_WIND"
tile_str_name Tile.west_wind = "TILE_WEST_WIND"
tile_str_name Tile.north_wind = "TILE_NORTH_WIND"
tile_str_name Tile.red_dragon = "TILE_RED_DRAGON"
tile_str_name Tile.green_dragon = "TILE_GREEN_DRAGON"
tile_str_name Tile.white_dragon = "TILE_WHITE_DRAGON"
tile_str_name Tile.flower_plum = "TILE_FLOWER_PLUM"
tile_str_name Tile.flower_orchid = "TILE_FLOWER_ORCHID"
tile_str_name Tile.flower_bamboo = "TILE_FLOWER_BAMBOO"
tile_str_name Tile.flower_chrysanthemum = "TILE_FLOWER_CHRYSANTHEMUM"
tile_str_name Tile.season_spring = "TILE_SEASON_SPRING"
tile_str_name Tile.season_summer = "TILE_SEASON_SUMMER"
tile_str_name Tile.season_autumn = "TILE_SEASON_AUTUMN"
tile_str_name Tile.season_winter = "TILE_SEASON_WINTER"

pub tile_found : (a : Tile) → numbered tile_number (tile_number a) tile_variants ≡ some a
unfolding tile_number
tile_found Tile.unspecified = refl
tile_found _ = refl

instance abbrev pub tile_enum : ProtoEnum Tile
tile_enum = record {
  variants = tile_variants;
  number = tile_number;
  str_name = tile_str_name;
  found = tile_found;
}

instance abbrev pub tile_eq : PartialEq Tile
tile_eq = enum_eq
