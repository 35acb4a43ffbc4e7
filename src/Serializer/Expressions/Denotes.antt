-- ===== src/Serializer/Expressions/Denotes.antt =====
-- Which expression a JSON value stands for, as a relation; and which values stand for none.
use social_gaming_platform.Prelude.{◌≡◌, Bool, List, [], ◌∷◌, Text}
use social_gaming_platform.Prelude.Int.{ℤ}
use social_gaming_platform.Spec.Expression.{
  Expression, ExpMap, ExpList, exp_map, exp_list, exp_int, exp_bool, exp_string, empty_map, entry,
  empty_list, element,
}
use social_gaming_platform.Serializer.Json.{
  object, array, string, boolean, number_integer, unnamed, JsonLibrary, Returns,
}

module _ {J : Type 0} (lib : JsonLibrary J) where
  mutual
    pub data Denotes : J → Expression → Type 0 where
      a_string :
          {j : J} {t : Text}
          → lib.type_of j ≡ string
          → Returns (lib.get_string j) t
          → Denotes j (exp_string t)
      an_int :
          {j : J} {i : ℤ}
          → lib.type_of j ≡ number_integer
          → Returns (lib.get_int j) i
          → Denotes j (exp_int i)
      a_bool :
          {j : J} {b : Bool}
          → lib.type_of j ≡ boolean
          → Returns (lib.get_bool j) b
          → Denotes j (exp_bool b)
      a_map :
          {j : J} {m : ExpMap}
          → lib.type_of j ≡ object
          → Entries (lib.items j) m
          → Denotes j (exp_map m)
      a_list :
          {j : J} {es : ExpList}
          → lib.type_of j ≡ array
          → Elements (lib.items j) es
          → Denotes j (exp_list es)

    -- Key by key, in the order of the items.
    pub data Entries : List (Text × J) → ExpMap → Type 0 where
      no_entry : Entries [] empty_map
      one_entry :
          {k : Text} {v : J} {l : List (Text × J)} {e : Expression} {m : ExpMap}
          → Denotes v e
          → Entries l m
          → Entries ((k, v) ∷ l) (entry k e m)

    pub data Elements : List (Text × J) → ExpList → Type 0 where
      no_element : Elements [] empty_list
      one_element :
          {k : Text} {v : J} {l : List (Text × J)} {e : Expression} {es : ExpList}
          → Denotes v e
          → Elements l es
          → Elements ((k, v) ∷ l) (element e es)

  -- A value of a type that the serializer does not name stands for nothing, and neither does an object or
  -- an array that has one in it.
  mutual
    pub data Unnamed : J → Type 0 where
      itself : {j : J} → lib.type_of j ≡ unnamed → Unnamed j
      in_object : {j : J} → lib.type_of j ≡ object → SomeUnnamed (lib.items j) → Unnamed j
      in_array : {j : J} → lib.type_of j ≡ array → SomeUnnamed (lib.items j) → Unnamed j

    pub data SomeUnnamed : List (Text × J) → Type 0 where
      here : {k : Text} {v : J} {l : List (Text × J)} → Unnamed v → SomeUnnamed ((k, v) ∷ l)
      there : {k : Text} {v : J} {l : List (Text × J)} → SomeUnnamed l → SomeUnnamed ((k, v) ∷ l)
