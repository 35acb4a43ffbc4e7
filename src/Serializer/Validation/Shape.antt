-- ===== src/Serializer/Validation/Shape.antt =====
-- What the tables ask of a game specification, described without the validation.
use social_gaming_platform.Prelude.{◌≡◌, ◌↔◌, Bool, true, Option, none, some, Text, codes}
use social_gaming_platform.Serializer.Keys.{lookup}
use social_gaming_platform.Serializer.Json.{ValueType, object, Parse, JsonLibrary, Returns}
use social_gaming_platform.Serializer.Tables.{
  Table, fields, fields_configuration, fields_player_count,
}

module _ {J : Type 0} (lib : JsonLibrary J) where
  abbrev pub typed : Option J → Option ValueType
  typed none = none
  typed (some v) = some (lib.type_of v)

  abbrev pub Member : Text → J → J → Type 0
  Member k j v = lookup k (lib.items j) ≡ some v

  -- An object with the members that the table lists, of the listed types, and no others.
  pub record HasShape (table : Table) (j : J) : Type 0 where
    pub is_object : lib.type_of j ≡ object
    pub members : (k : Text) → typed (lookup k (lib.items j)) ≡ lookup k table

  pub record IsGameSpec (j : J) : Type 0 where
    pub config : J
    pub player_count : J
    pub top : HasShape fields j
    pub config_member : Member (codes "configuration") j config
    pub inner : HasShape fields_configuration config
    pub count_member : Member (codes "player count") config player_count
    pub counts : HasShape fields_player_count player_count

-- A test that returns, neither throwing nor undefined, and says whether `P` holds.
abbrev pub Decides : Parse Bool → Type 0 → Type 0
Decides m P = (b : Bool) × Returns m b × ((b ≡ true) ↔ P)
