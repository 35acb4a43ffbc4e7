-- ===== src/Serializer/Json.antt =====
-- nlohmann::json, the library of JSON values, by the operations that the serializer calls. `J` is its type
-- of values; an operation that the library lets throw returns an outcome.
use social_gaming_platform.Prelude.{
  ℕ, ◌==◌, ==_iff, ◌<◌, ◌≡◌, refl, sym, ap, ◌∙◌, Bool, true, ◌&&◌, none, some, List, [], ◌∷◌, Text,
  length, codes, if◌then◌else◌,
}
use social_gaming_platform.Prelude.Int.{ℤ}
use social_gaming_platform.Run.{Run, ok, threw, library_exception}
use social_gaming_platform.Serializer.Keys.{lookup, keys, mem, Unique}

-- json::value_t, by the types that the serializer names. The others (null, number_unsigned, number_float,
-- binary and discarded) are one.
pub data ValueType : Type 0 where
  object array string boolean number_integer unnamed : ValueType

abbrev pub number_of : ValueType → ℕ
number_of object = 0
number_of array = 1
number_of string = 2
number_of boolean = 3
number_of number_integer = 4
number_of unnamed = 5

abbrev of_number : ℕ → ValueType
of_number n =
    if n == 0
    then object
    else if n == 1
    then array
    else if n == 2
    then string
    else if n == 3
    then boolean
    else if n == 4
    then number_integer
    else unnamed

abbrev pub same_type : ValueType → ValueType → Bool
same_type s t = number_of s == number_of t

of_number_of : (t : ValueType) → of_number (number_of t) ≡ t
of_number_of object = refl
of_number_of array = refl
of_number_of string = refl
of_number_of boolean = refl
of_number_of number_integer = refl
of_number_of unnamed = refl

pub same_type-eq : (s t : ValueType) → same_type s t ≡ true → s ≡ t
same_type-eq s t h =
    sym (of_number_of s) ∙ ap of_number ((==_iff (number_of s) (number_of t)).0 h) ∙ of_number_of t

pub same_type_refl : (t : ValueType) → same_type t t ≡ true
same_type_refl t = (==_iff (number_of t) (number_of t)).1 refl

-- The serializer changes no object that outlives a call: a state of one value.
abbrev pub Parse : Type 0 → Type 0
Parse A = Run (Unit {0}) A

-- `type()`, `items()` as key and value, `size()`, `contains(key)`, `at(key)`, `operator[](key)` of a
-- constant and of a variable value, `get<T>()` and `get_to` at the types used, `flatten()`, `== NULL`; how
-- deep a value nests, and the key that `items()` shows for an index.
pub record JsonLibrary (J : Type 0) : Type 0 where
  pub type_of : J → ValueType
  pub items : J → List (Text × J)
  pub size : J → ℕ
  pub contains : Text → J → Bool
  pub at : Text → J → Parse J
  pub index : Text → J → Parse J
  pub index_or_insert : Text → J → Parse J
  pub get_string : J → Parse Text
  pub get_int : J → Parse ℤ
  pub get_bool : J → Parse Bool
  pub get_vector : J → Parse (List J)
  pub flatten : J → J
  pub equals_null : J → Bool
  pub depth : J → ℕ
  pub index_text : ℕ → Text

-- A call that returns this value.
abbrev pub Returns : {A : Type 0} → Parse A → A → Type 0
Returns m a = (w : Unit {0}) → m w ≡ ok a w

abbrev pub Shallower : {J : Type 0} → (J → ℕ) → ℕ → List (Text × J) → Type 0
Shallower depth d [] = Unit {0}
Shallower depth d ((k, v) ∷ l) = (depth v < d) × Shallower depth d l

-- What the library documents. `items()` has each key once: an object is a std::map, an element of an array
-- has its index for a key, and any other value is one item. `get<T>()` returns the stored value if the type
-- is T's, and a value is a finite tree.
pub record IsDocumented {J : Type 0} (lib : JsonLibrary J) : Type 0 where
  pub keys_once : (j : J) → Unique (keys (lib.items j))
  pub array_keys :
      (j : J) (k : Text)
      → lib.type_of j ≡ array
      → mem k (keys (lib.items j)) ≡ true
      → (i : ℕ) × (k ≡ lib.index_text i)
  pub size_lem : (j : J) → lib.type_of j ≡ object → lib.size j ≡ length (lib.items j)
  pub contains_lem :
      (k : Text) (j : J)
      → lib.contains k j ≡ (same_type (lib.type_of j) object && mem k (keys (lib.items j)))
  pub at_lem :
      (k : Text) (j v : J)
      → lib.type_of j ≡ object
      → lookup k (lib.items j) ≡ some v
      → Returns (lib.at k j) v
  pub at_missing :
      (k : Text) (j : J)
      → lib.type_of j ≡ object
      → lookup k (lib.items j) ≡ none
      → (w : Unit {0}) → lib.at k j w ≡ threw (library_exception (codes "out_of_range")) w
  pub index_lem :
      (k : Text) (j v : J)
      → lib.type_of j ≡ object
      → lookup k (lib.items j) ≡ some v
      → Returns (lib.index k j) v
  pub get_string_lem : (j : J) → lib.type_of j ≡ string → (t : Text) × Returns (lib.get_string j) t
  pub get_int_lem : (j : J) → lib.type_of j ≡ number_integer → (i : ℤ) × Returns (lib.get_int j) i
  pub get_bool_lem : (j : J) → lib.type_of j ≡ boolean → (b : Bool) × Returns (lib.get_bool j) b
  pub items_shallower : (j : J) → Shallower lib.depth (lib.depth j) (lib.items j)
