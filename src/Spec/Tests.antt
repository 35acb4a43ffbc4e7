-- ===== src/Spec/Tests.antt =====
-- A run of the theorem about paths (module/game_spec/src/ExpressionPtr.cpp).
use social_gaming_platform.Prelude.{true, List, [], ◌∷◌, Text, codes, some, ◌≡◌, refl}
use social_gaming_platform.Prelude.Int.{pos}
use social_gaming_platform.Run.{ok}
use social_gaming_platform.Spec.Expression.{
  ExpMap, exp_map, exp_int, exp_bool, empty_map, entry, find_key,
}
use social_gaming_platform.Spec.Pointer.{get_ptr, store}
use social_gaming_platform.Spec.Pointer.Laws.{store_lem}

-- { options: { rounds: 3, open: true } }
abbrev variables : ExpMap
variables =
    entry (codes "options")
      (exp_map
        (entry (codes "rounds") (exp_int (pos 3)) (entry (codes "open") (exp_bool true) empty_map)))
      empty_map

abbrev rounds_path : List Text
rounds_path = codes "options" ∷ codes "rounds" ∷ []

abbrev open_path : List Text
open_path = codes "options" ∷ codes "open" ∷ []

leads : get_ptr rounds_path variables ≡ some (exp_int (pos 3))
unfolding get_ptr find_key
leads = refl

store_lem_example :
    (m' : ExpMap) × (store rounds_path (exp_int (pos 5)) variables (tt {0}) ≡ ok m' (tt {0}))
    × (get_ptr rounds_path m' ≡ some (exp_int (pos 5)))
    × (get_ptr open_path m' ≡ get_ptr open_path variables)
store_lem_example =
    store_lem rounds_path open_path (exp_int (pos 5)) (exp_int (pos 3)) variables (tt {0}) leads
      refl
