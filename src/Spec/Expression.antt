-- ===== src/Spec/Expression.antt =====
-- Expressions, the values of the game language (module/game_spec/include/Expression.h). A map is a
-- std::unordered_map: a list of entries in the order in which it is iterated, each key once.
use social_gaming_platform.Prelude.{
  ℕ, zero, suc, Bool, Option, none, some, Text, codes, text_eq, if◌then◌else◌,
}
use social_gaming_platform.Prelude.Int.{ℤ}
use social_gaming_platform.Run.{Run, ok, threw, runtime_error}

mutual
  -- boost::variant, in the order of its alternatives.
  pub data Expression : Type 0 where
    exp_map : ExpMap → Expression
    exp_list : ExpList → Expression
    exp_int : ℤ → Expression
    exp_bool : Bool → Expression
    exp_string : Text → Expression

  pub data ExpMap : Type 0 where
    empty_map : ExpMap
    entry : Text → Expression → ExpMap → ExpMap

  pub data ExpList : Type 0 where
    empty_list : ExpList
    element : Expression → ExpList → ExpList

-- ExpList::getSize.
unfoldable pub get_size : ExpList → ℕ
get_size empty_list = 0
get_size (element e l) = suc (get_size l)

-- `list[i]`; past the end there is nothing.
unfoldable pub element_at : ℕ → ExpList → Option Expression
element_at i empty_list = none
element_at zero (element e l) = some e
element_at (suc i) (element e l) = element_at i l

-- push_back.
unfoldable pub push_back : ExpList → Expression → ExpList
push_back empty_list x = element x empty_list
push_back (element e l) x = element e (push_back l x)

-- std::reverse.
unfoldable pub reverse_list : ExpList → ExpList
unfolding push_back
reverse_list empty_list = empty_list
reverse_list (element e l) = push_back (reverse_list l) e

-- find.
unfoldable pub find_key : Text → ExpMap → Option Expression
find_key k empty_map = none
find_key k (entry n e m) = if text_eq n k then some e else find_key k m

-- `map[key] = e`. A new key may come anywhere in the order; here it comes last.
unfoldable pub assign_key : Text → Expression → ExpMap → ExpMap
assign_key k x empty_map = entry k x empty_map
assign_key k x (entry n e m) =
    let rest = assign_key k x m in if text_eq n k then entry n x m else entry n e rest

-- erase.
unfoldable pub erase_key : Text → ExpMap → ExpMap
erase_key k empty_map = empty_map
erase_key k (entry n e m) = let rest = erase_key k m in if text_eq n k then m else entry n e rest

module _ {W : Type 0} where
  abbrev pub bad_cast : {A : Type 0} → Run W A
  bad_cast w = threw (runtime_error (codes "invalid castExp")) w

  -- castExp, at each of the types that it is called with.
  unfoldable pub cast_int : Expression → Run W ℤ
  cast_int (exp_int i) w = ok i w
  cast_int (exp_map m) w = bad_cast w
  cast_int (exp_list l) w = bad_cast w
  cast_int (exp_bool b) w = bad_cast w
  cast_int (exp_string t) w = bad_cast w

  unfoldable pub cast_string : Expression → Run W Text
  cast_string (exp_string t) w = ok t w
  cast_string (exp_map m) w = bad_cast w
  cast_string (exp_list l) w = bad_cast w
  cast_string (exp_int i) w = bad_cast w
  cast_string (exp_bool b) w = bad_cast w

  unfoldable pub cast_list : Expression → Run W ExpList
  cast_list (exp_list l) w = ok l w
  cast_list (exp_map m) w = bad_cast w
  cast_list (exp_int i) w = bad_cast w
  cast_list (exp_bool b) w = bad_cast w
  cast_list (exp_string t) w = bad_cast w

  unfoldable pub cast_map : Expression → Run W ExpMap
  cast_map (exp_map m) w = ok m w
  cast_map (exp_list l) w = bad_cast w
  cast_map (exp_int i) w = bad_cast w
  cast_map (exp_bool b) w = bad_cast w
  cast_map (exp_string t) w = bad_cast w
