-- ===== src/Serializer/Sample.antt =====
-- A library of JSON values that knows the values of one small document only, for the tests.
use social_gaming_platform.Prelude.{
  ℕ, ◌+◌, ◌≡◌, inl, inr, refl, sym, ap, true, false, ◌&&◌, Option, none, some, List, [], ◌∷◌, Text,
  codes, text_eq, text_eq_iff, length, arith, Bool-cases,
}
use social_gaming_platform.Prelude.Int.{ℤ, pos}
use social_gaming_platform.Run.{pure, throw, library_exception}
use social_gaming_platform.Serializer.Keys.{lookup, keys, mem, Unique}
use social_gaming_platform.Serializer.Json.{
  ValueType, object, array, string, boolean, number_integer, same_type, Parse, JsonLibrary,
  IsDocumented, Shallower,
}

-- A specification of one constant and one setting, and a configuration of the server.
pub data Node : Type 0 where
  document configuration counts settings constants weapon : Node
  title low high flag empty server : Node

abbrev pub node_type : Node → ValueType
node_type document = object
node_type configuration = object
node_type counts = object
node_type settings = array
node_type constants = array
node_type weapon = object
node_type title = string
node_type low = number_integer
node_type high = number_integer
node_type flag = boolean
node_type empty = array
node_type server = object

abbrev pub node_items : Node → List (Text × Node)
node_items document =
    (codes "configuration", configuration)
    ∷ (codes "constants", constants)
    ∷ (codes "per-audience", empty)
    ∷ (codes "per-player", empty)
    ∷ (codes "rules", empty)
    ∷ (codes "variables", empty)
    ∷ []
node_items configuration =
    (codes "audience", flag)
    ∷ (codes "name", title)
    ∷ (codes "player count", counts)
    ∷ (codes "setup", settings)
    ∷ []
node_items counts = (codes "max", high) ∷ (codes "min", low) ∷ []
node_items settings = (codes "0", high) ∷ []
node_items constants = (codes "0", weapon) ∷ []
node_items weapon = (codes "beats", title) ∷ (codes "power", high) ∷ []
node_items title = []
node_items low = []
node_items high = []
node_items flag = []
node_items empty = []
node_items server = (codes "games", empty) ∷ (codes "htmlpath", title) ∷ (codes "port", high) ∷ []

abbrev pub node_depth : Node → ℕ
node_depth document = 3
node_depth configuration = 2
node_depth counts = 1
node_depth settings = 1
node_depth constants = 2
node_depth weapon = 1
node_depth title = 0
node_depth low = 0
node_depth high = 0
node_depth flag = 0
node_depth empty = 0
node_depth server = 1

abbrev pub fetched : Option Node → Parse Node
fetched none = throw (library_exception (codes "out_of_range"))
fetched (some v) = pure v

abbrev pub node_int : Node → ℤ
node_int high = pos 4
node_int n = pos 2

abbrev pub nodes : JsonLibrary Node
nodes = record {
  type_of = node_type;
  items = node_items;
  size = λ j. length (node_items j);
  contains = λ k j. same_type (node_type j) object && mem k (keys (node_items j));
  at = λ k j. fetched (lookup k (node_items j));
  index = λ k j. fetched (lookup k (node_items j));
  index_or_insert = λ k j. pure title;
  get_string = λ j. pure (codes "Rock");
  get_int = λ j. pure (node_int j);
  get_bool = λ j. pure true;
  get_vector = λ j. pure [];
  flatten = λ j. j;
  equals_null = λ j. false;
  depth = node_depth;
  index_text = λ i. (i + b'0') ∷ [];
}

nodes-Unique : (j : Node) → Unique (keys (node_items j))
unfolding mem
nodes-Unique document = (refl, (refl, (refl, (refl, (refl, (refl, tt))))))
nodes-Unique configuration = (refl, (refl, (refl, (refl, tt))))
nodes-Unique counts = (refl, (refl, tt))
nodes-Unique settings = (refl, tt)
nodes-Unique constants = (refl, tt)
nodes-Unique weapon = (refl, (refl, tt))
nodes-Unique server = (refl, (refl, (refl, tt)))
nodes-Unique title = tt
nodes-Unique low = tt
nodes-Unique high = tt
nodes-Unique flag = tt
nodes-Unique empty = tt

nodes-Shallower : (j : Node) → Shallower node_depth (node_depth j) (node_items j)
nodes-Shallower document = omega arith
nodes-Shallower configuration = omega arith
nodes-Shallower counts = omega arith
nodes-Shallower settings = omega arith
nodes-Shallower constants = omega arith
nodes-Shallower weapon = omega arith
nodes-Shallower server = omega arith
nodes-Shallower title = tt
nodes-Shallower low = tt
nodes-Shallower high = tt
nodes-Shallower flag = tt
nodes-Shallower empty = tt

first_key : (k : Text) → mem k (codes "0" ∷ []) ≡ true → (i : ℕ) × (k ≡ (i + b'0') ∷ [])
unfolding mem
first_key k h = elim (Bool-cases (text_eq (codes "0") k)) [
  | inl e ↦ (0, sym ((text_eq_iff (codes "0") k).0 e))
  | inr e ↦ absurd (cc (rw e at h))
]

array_keys :
    (j : Node) (k : Text)
    → node_type j ≡ array
    → mem k (keys (node_items j)) ≡ true
    → (i : ℕ) × (k ≡ (i + b'0') ∷ [])
unfolding mem
array_keys settings k a h = first_key k h
array_keys constants k a h = first_key k h
array_keys empty k a h = absurd (cc h)
array_keys document k a h = absurd (cc a)
array_keys configuration k a h = absurd (cc a)
array_keys counts k a h = absurd (cc a)
array_keys weapon k a h = absurd (cc a)
array_keys title k a h = absurd (cc a)
array_keys low k a h = absurd (cc a)
array_keys high k a h = absurd (cc a)
array_keys flag k a h = absurd (cc a)
array_keys server k a h = absurd (cc a)

pub nodes-IsDocumented : IsDocumented nodes
nodes-IsDocumented = record {
  keys_once = nodes-Unique;
  array_keys = array_keys;
  size_lem = λ j o. refl;
  contains_lem = λ k j. refl;
  at_lem = λ k j v o e w. ap (λ r. fetched r w) e;
  at_missing = λ k j o e w. ap (λ r. fetched r w) e;
  index_lem = λ k j v o e w. ap (λ r. fetched r w) e;
  get_string_lem = λ j o. (codes "Rock", λ w. refl);
  get_int_lem = λ j o. (node_int j, λ w. refl);
  get_bool_lem = λ j o. (true, λ w. refl);
  items_shallower = nodes-Shallower;
}
