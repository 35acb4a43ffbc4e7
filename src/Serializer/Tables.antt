-- ===== src/Serializer/Tables.antt =====
-- The fields that a game specification must have, with their types (the tables of jsonSerializer.h).
use social_gaming_platform.Prelude.{List, [], ◌∷◌, Text, codes}
use social_gaming_platform.Serializer.Json.{
  ValueType, object, array, string, boolean, number_integer,
}

abbrev pub Table : Type 0
Table = List (Text × ValueType)

-- FIELDS.
abbrev pub fields : Table
fields =
    (codes "configuration", object)
    ∷ (codes "constants", array)
    ∷ (codes "variables", array)
    ∷ (codes "per-player", array)
    ∷ (codes "per-audience", array)
    ∷ (codes "rules", array)
    ∷ []

-- FIELDS_configuration.
abbrev pub fields_configuration : Table
fields_configuration =
    (codes "name", string)
    ∷ (codes "player count", object)
    ∷ (codes "audience", boolean)
    ∷ (codes "setup", array)
    ∷ []

-- FIELDS_playerCount.
abbrev pub fields_player_count : Table
fields_player_count = (codes "min", number_integer) ∷ (codes "max", number_integer) ∷ []
