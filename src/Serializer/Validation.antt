-- ===== src/Serializer/Validation.antt =====
-- The validation of a game specification (isValidGameSpec and what it calls, jsonSerializer.cpp). A key
-- that a table lacks makes `FIELDS.at(key)` throw.
pub mod Shape
pub mod Fits
pub mod Laws
pub mod Decision
use social_gaming_platform.Prelude.{
  Bool, true, false, ◌&&◌, ◌==◌, Option, none, some, List, [], ◌∷◌, Text, codes, length, all,
}
use social_gaming_platform.Run.{pure, throw, library_exception, ◌>>=◌, ◌>>◌}
use social_gaming_platform.Serializer.Keys.{lookup}
use social_gaming_platform.Serializer.Json.{ValueType, same_type, Parse, JsonLibrary}
use social_gaming_platform.Serializer.Tables.{
  Table, fields, fields_configuration, fields_player_count,
}

-- std::map::at.
abbrev pub found_type : Option ValueType → Parse ValueType
found_type none = throw (library_exception (codes "out_of_range"))
found_type (some t) = pure t

abbrev pub type_at : Table → Text → Parse ValueType
type_at table k = found_type (lookup k table)

-- `if (!b) return false;`, and the right of `&&`.
abbrev pub also : Bool → Parse Bool → Parse Bool
also true m = m
also false m = pure false

module _ {J : Type 0} (lib : JsonLibrary J) where
  -- `find_if(table, !j.contains(target.first)) == table.end()`.
  abbrev pub has_fields : Table → J → Bool
  has_fields table j = all (λ (f : Text × ValueType). lib.contains f.0 j) table

  unfoldable pub has_all_required_fields : J → Parse Bool
  unfolding lookup
  has_all_required_fields j = also (has_fields fields j) (do
    config ← lib.at (codes "configuration") j
    also (has_fields fields_configuration config) (do
      config' ← lib.at (codes "configuration") j
      player_count ← lib.at (codes "player count") config'
      pure (has_fields fields_player_count player_count)))

  unfoldable pub has_no_extra_fields : J → Parse Bool
  has_no_extra_fields j = do
    config ← lib.at (codes "configuration") j
    config' ← lib.at (codes "configuration") j
    player_count ← lib.at (codes "player count") config'
    pure (
        length fields == lib.size j
        && length fields_configuration == lib.size config
        && length fields_player_count == lib.size player_count)

  -- One of the three loops of validFieldValues, over the items of an object.
  unfoldable pub valid_values : Table → List (Text × J) → Parse Bool
  unfolding lookup
  valid_values table [] = pure true
  valid_values table ((k, v) ∷ l) = do
    t ← type_at table k
    also (same_type (lib.type_of v) t) (valid_values table l)

  unfoldable pub valid_field_values : J → Parse Bool
  unfolding valid_values
  valid_field_values j = do
    top ← valid_values fields (lib.items j)
    also top (do
      config ← lib.index (codes "configuration") j
      inner ← valid_values fields_configuration (lib.items config)
      also inner (do
        config' ← lib.index (codes "configuration") j
        player_count ← lib.index (codes "player count") config'
        valid_values fields_player_count (lib.items player_count)))

  unfoldable pub is_valid_game_spec : J → Parse Bool
  unfolding has_all_required_fields has_no_extra_fields valid_field_values
  is_valid_game_spec j = do
    required ← has_all_required_fields j
    also required (do no_extra ← has_no_extra_fields j; also no_extra (valid_field_values j))
