-- ===== src/Interpreter/Lists/Filters.antt =====
-- What list expressions select, and the rules that take elements off lists
-- (module/game_manager/src/DSLInterpreter.cpp).
use social_gaming_platform.Prelude.{
  ◌+◌, ◌-◌, ◌%◌, Bool, true, false, Option, none, some, List, Text, codes, length, if◌then◌else◌,
}
use social_gaming_platform.Run.{Run, fault, pure, ◌>>=◌}
use social_gaming_platform.Spec.Expression.{
  Expression, ExpMap, ExpList, exp_map, empty_map, entry, empty_list, element, find_key,
  cast_string, cast_map,
}
use social_gaming_platform.Interpreter.Tokens.{starts_with}
use social_gaming_platform.Interpreter.Lists.{
  size_mod, find_text, find_first_of, find_last_of, substr, token_at, tokenizer, evaluate_equality,
}

-- `begin()->second` of a map, which has to have an entry.
abbrev pub first_value : {W : Type 0} → ExpMap → Run W Expression
first_value empty_map = fault
first_value (entry k e m) = pure e

abbrev pub cons_found : Option Expression → ExpList → ExpList
cons_found none l = l
cons_found (some e) l = element e l

abbrev pub keep_if : Bool → ExpMap → ExpList → ExpList
keep_if true m l = element (exp_map m) l
keep_if false m l = l

module _ {W : Type 0} where
  -- evalListContains. The iterators that it compares are into temporaries that are gone.
  unfoldable pub eval_list_contains : ExpList → Expression → Expression → Run W Bool
  unfolding cast_map cast_string
  eval_list_contains empty_list attribute to_compare = pure false
  eval_list_contains (element e l) attribute to_compare = do
    map ← cast_map e
    player ← first_value map
    variables ← cast_map player
    name ← cast_string attribute
    fault

  -- getlistAttribute: the map that has the attribute, or the one that stands first in it.
  abbrev pub actual_map : Option Expression → ExpMap → Run W ExpMap
  actual_map (some e) m = pure m
  actual_map none m = do e ← first_value m; cast_map e

  unfoldable pub get_list_attribute : ExpList → Text → Run W ExpList
  unfolding cast_map find_key
  get_list_attribute empty_list attribute = pure empty_list
  get_list_attribute (element e l) attribute = do
    mapper ← cast_map e
    actual ← actual_map (find_key attribute mapper) mapper
    rest ← get_list_attribute l attribute
    pure (cons_found (find_key attribute actual) rest)

  -- getCollectList. The comparison is "<" unless the condition begins with it.
  unfoldable pub comparison_of : Text → Run W Text
  unfolding substr
  comparison_of condition =
      let comp = if starts_with (codes "<") condition then codes "==" else codes "<" in
      substr condition (find_first_of comp condition) (find_last_of comp condition)

  abbrev pub compare_found : Option Expression → Option Expression → Text → Run W (Option Bool)
  compare_found (some a) (some b) comparison = do
    kept ← evaluate_equality a b comparison
    pure (some kept)
  compare_found none b comparison = pure none
  compare_found (some a) none comparison = pure none

  -- The loop: it stops at an element without the variable of the left side.
  unfoldable pub collect_from : ExpList → List Text → List Text → ExpMap → Text → Run W ExpList
  unfolding cast_map token_at find_key evaluate_equality
  collect_from empty_list lhs rhs rhs_map comparison = pure empty_list
  collect_from (element e l) lhs rhs rhs_map comparison = do
    map ← cast_map e
    left ← token_at 1 lhs
    right ← token_at 0 rhs
    kept ← compare_found (find_key left map) (find_key right rhs_map) comparison
    rest ← elim kept [ none ↦ pure empty_list | some b ↦ collect_from l lhs rhs rhs_map comparison ]
    pure (elim kept [ none ↦ empty_list | some b ↦ keep_if b map rest ])

  unfoldable pub get_collect_list : ExpList → Text → ExpMap → Run W ExpList
  unfolding comparison_of substr tokenizer collect_from
  get_collect_list list condition rhs_map = do
    comparison ← comparison_of condition
    let comma = find_text (codes ",") condition
    lhs ←
        substr condition ((comma + 1) % size_mod)
          ((find_text comparison condition + size_mod - 2) % size_mod)
    rhs ←
        substr condition ((find_last_of comparison condition + 1) % size_mod)
          ((length condition + size_mod - 1) % size_mod)
    collect_from list (tokenizer lhs) (tokenizer rhs) rhs_map comparison
