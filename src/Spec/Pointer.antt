-- ===== src/Spec/Pointer.antt =====
-- ExpressionPtr (module/game_spec/src/ExpressionPtr.cpp): a path of keys into a map of maps. A pointer to
-- an expression is the path at which it stands.
pub mod Laws
use social_gaming_platform.Prelude.{true, false, Option, none, some, List, [], ◌∷◌, Text, codes}
use social_gaming_platform.Run.{Run, ok, threw, undefined, runtime_error, ◌>>=◌, ◌>>◌}
use social_gaming_platform.Spec.Expression.{
  Expression, ExpMap, exp_map, exp_list, exp_int, exp_bool, exp_string, find_key, assign_key,
}

-- castToExpMap.
unfoldable pub cast_to_map : Expression → Option ExpMap
cast_to_map (exp_map m) = some m
cast_to_map (exp_list l) = none
cast_to_map (exp_int i) = none
cast_to_map (exp_bool b) = none
cast_to_map (exp_string t) = none

-- The loop's body, given the rest of the indices and what the rest of the loop does with a map.
abbrev pub nested : (ExpMap → Option Expression) → Option ExpMap → Option Expression
nested k none = none
nested k (some m) = k m

abbrev pub follow : List Text → (ExpMap → Option Expression) → Option Expression → Option Expression
follow is k none = none
follow [] k (some e) = some e
follow (j ∷ is) k (some e) = nested k (cast_to_map e)

-- What the pointer of getPtr leads to. Its assertion that there is an index is in `check_indices`.
unfoldable pub get_ptr : List Text → ExpMap → Option Expression
unfolding cast_to_map
get_ptr [] m = none
get_ptr (i ∷ is) m = follow is (get_ptr is) (find_key i m)

-- `assert(indices.size() > 0)`.
abbrev pub check_indices : {W : Type 0} → List Text → Run W (Unit {0})
check_indices [] w = undefined
check_indices (i ∷ is) w = ok tt w

-- `*ptr = exp` through the pointer of getPtr: a write into the maps on the path.
abbrev pub within : (ExpMap → ExpMap) → Expression → Option ExpMap → Expression
within k e none = e
within k e (some m) = exp_map (k m)

abbrev pub put_under : List Text → Expression → (ExpMap → ExpMap) → Expression → Expression
put_under [] x k e = x
put_under (j ∷ is) x k e = within k e (cast_to_map e)

abbrev pub put_found : Text → (Expression → Expression) → ExpMap → Option Expression → ExpMap
put_found i k m none = m
put_found i k m (some e) = assign_key i (k e) m

unfoldable pub put : List Text → Expression → ExpMap → ExpMap
unfolding cast_to_map
put [] x m = m
put (i ∷ is) x m = put_found i (put_under is x (put is x)) m (find_key i m)

abbrev pub store_at :
    {W : Type 0} → List Text → Expression → ExpMap → Option Expression → Run W ExpMap
store_at is x m none w = threw (runtime_error (codes "storing to invalid object name")) w
store_at is x m (some e) w = ok (put is x m) w

-- ExpressionPtr::store, as the map after it.
unfoldable pub store : {W : Type 0} → List Text → Expression → ExpMap → Run W ExpMap
unfolding get_ptr put
store is x m = do check_indices is; store_at is x m (get_ptr is m)
