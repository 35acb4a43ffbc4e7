-- ===== src/Interpreter/Lists/Taking.antt =====
-- The rules that take elements off lists (module/game_manager/src/DSLInterpreter.cpp).
use social_gaming_platform.Prelude.{
  ℕ, zero, suc, ◌+◌, ◌-◌, ◌%◌, Bool, true, ◌||◌, Option, none, some, List, [], ◌∷◌, Text, codes,
  text_eq, length, ltb, ◌==◌, if◌then◌else◌,
}
use social_gaming_platform.Prelude.Int.{ℤ, pos, negsuc}
use social_gaming_platform.Run.{Run, fault, pure, gets, modify, ◌>>=◌, ◌>>◌}
use social_gaming_platform.Spec.Expression.{
  Expression, ExpMap, ExpList, exp_list, empty_list, element, get_size, find_key, assign_key,
  cast_int, cast_string, cast_list,
}
use social_gaming_platform.Spec.State.{GameState}
use social_gaming_platform.Interpreter.Tokens.{contains}
use social_gaming_platform.Interpreter.Lists.{
  size_mod, npos, find_text, out_of_range, substr, token_at, tokenizer,
}
use social_gaming_platform.Interpreter.Lists.Filters.{get_list_attribute, get_collect_list}

-- The vector that evaluatelistExp returns.
pub record ListExpression : Type 0 where
  pub list_name : Text
  pub attribute : Text
  pub contains_collect : Text
  pub condition : Text

-- `condition.pop_back()`.
abbrev pub drop_back : ℕ → Text → Text
drop_back c [] = []
drop_back c (d ∷ s) = c ∷ drop_back d s

module _ {W : Type 0} where
  abbrev pub pop_back : Text → Run W Text
  pop_back [] = fault
  pop_back (c ∷ s) = pure (drop_back c s)

  abbrev pub condition_of : Text → ℕ → Run W Text
  condition_of s opening = if opening == npos then pure (codes "none") else (do
    condition ← substr s (opening + 1) ((length s + size_mod - 2) % size_mod)
    pop_back condition)

  abbrev pub kind_of : Text → List Text → Run W Text
  kind_of attribute before =
      if text_eq attribute (codes "collect")
      then token_at 2 before
      else if ltb 3 (length before)
      then token_at 3 before
      else pure (codes "none")

  -- evaluatelistExp.
  unfoldable pub evaluate_list_exp : Expression → Run W ListExpression
  unfolding cast_string substr tokenizer token_at
  evaluate_list_exp list = do
    list_string ← cast_string list
    let opening = find_text (codes "(") list_string
    head ← substr list_string 0 opening
    let before = tokenizer head
    actual_list ← token_at 0 before
    attribute ← token_at 2 before
    kind ← kind_of attribute before
    condition ← condition_of list_string opening
    pure (record {
      list_name = actual_list;
      attribute = attribute;
      contains_collect = kind;
      condition = condition;
    })

  -- getEvaluatedList, on the variables of the state.
  abbrev pub evaluated : ListExpression → ExpMap → Option Expression → Run W ExpList
  evaluated le variables none = pure empty_list
  evaluated le variables (some e) = do
    l ← cast_list e
    if text_eq le.attribute (codes "collect")
        then get_collect_list l le.condition variables
        else get_list_attribute l le.attribute

  unfoldable pub get_evaluated_list : ListExpression → ExpMap → Run W ExpList
  unfolding find_key cast_list get_collect_list get_list_attribute
  get_evaluated_list le variables = evaluated le variables (find_key le.list_name variables)

  -- The elements that visitImpl(Discard&) prints have to be texts.
  unfoldable pub print_each : ExpList → Run W (Unit {0})
  unfolding cast_string
  print_each empty_list = pure tt
  print_each (element e l) = do t ← cast_string e; print_each l

-- `count > list.size()`, where the int becomes a size_t.
abbrev pub exceeds : ℤ → ExpList → Bool
exceeds (pos n) l = ltb (get_size l) n
exceeds (negsuc n) l = true

abbrev pub as_count : ℤ → ℕ
as_count (pos n) = n
as_count (negsuc n) = 0

unfoldable pub drop_elements : ℕ → ExpList → ExpList
drop_elements zero l = l
drop_elements (suc n) empty_list = empty_list
drop_elements (suc n) (element e l) = drop_elements n l

-- `variables.map.at(name) = list`.
abbrev pub replace_at : Text → ExpList → Option Expression → Run GameState (Unit {0})
replace_at name l none = out_of_range
replace_at name l (some e) =
    modify (λ s. record s { variables = assign_key name (exp_list l) s.variables })

-- The list that is shortened: for an expression with a dot the evaluated list is printed and lost, and an
-- empty one is left. None where the variable is missing.
abbrev pub list_at_name : Option Expression → Run GameState (Option ExpList)
list_at_name none = pure none
list_at_name (some e) = do l ← cast_list e; pure (some l)

abbrev pub list_to_shorten : Expression → Text → Run GameState (Option ExpList)
list_to_shorten from_list name =
    if contains (codes ".") name
    then (do
      le ← evaluate_list_exp from_list
      variables ← gets (λ s. s.variables)
      l ← get_evaluated_list le variables
      print_each l
      pure (some empty_list))
    else (do found ← gets (λ s. find_key name s.variables); list_at_name found)

abbrev pub shorten : Text → ℤ → Option ExpList → Run GameState (Unit {0})
shorten name count none = pure tt
shorten name count (some l) = if exceeds count l then pure tt else (do
  found ← gets (λ s. find_key name s.variables)
  replace_at name (drop_elements (as_count count) l) found)

-- visitImpl(Discard&).
unfoldable pub visit_discard : Expression → Expression → Run GameState (Unit {0})
unfolding cast_string cast_int cast_list contains evaluate_list_exp get_evaluated_list print_each
    find_key drop_elements assign_key get_size
visit_discard from_list count_exp = do
  list_exp ← cast_string from_list
  count ← cast_int count_exp
  l ← list_to_shorten from_list list_exp
  shorten list_exp count l

-- visitImpl(Deal&): it changes copies only, and reads through an iterator that it has erased.
abbrev pub list_of : Option Expression → Run GameState ExpList
list_of none = fault
list_of (some e) = cast_list e

abbrev pub select_from : ListExpression → ExpList → ExpMap → Run GameState ExpList
select_from le l variables =
    if text_eq le.attribute (codes "collect")
    then get_collect_list l le.condition variables
    else get_list_attribute l le.attribute

unfoldable pub visit_deal : Expression → Expression → Expression → Run GameState (Unit {0})
unfolding cast_string cast_int cast_list evaluate_list_exp get_collect_list get_list_attribute
    find_key get_size
visit_deal from_list to_list count_exp = do
  from ← evaluate_list_exp from_list
  to ← evaluate_list_exp to_list
  variables ← gets (λ s. s.variables)
  count ← cast_int count_exp
  actual_to ← list_of (find_key to.list_name variables)
  actual_from ← list_of (find_key from.list_name variables)
  from_selected ← select_from from actual_from variables
  to_selected ← select_from to actual_to variables
  if exceeds count actual_from || as_count count == 0 then pure tt else fault
