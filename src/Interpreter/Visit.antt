-- ===== src/Interpreter/Visit.antt =====
-- InterpretVisitor: what each kind of rule does when it is visited
-- (module/game_manager/src/DSLInterpreter.cpp).
pub mod Timer
use social_gaming_platform.Prelude.{
  ◌+◌, Bool, true, false, Option, none, some, List, [], ◌∷◌, Text, codes, leb, if◌then◌else◌,
}
use social_gaming_platform.Prelude.Int.{ℤ, ◌+ℤ◌, fits_int}
use social_gaming_platform.Run.{
  Run, ok, undefined, fault, pure, throw, gets, modify, runtime_error, ◌>>=◌, ◌>>◌,
}
use social_gaming_platform.Spec.Expression.{
  Expression, ExpMap, ExpList, exp_list, exp_int, get_size, element_at, reverse_list, find_key,
  assign_key, erase_key, cast_int, cast_string, cast_list,
}
use social_gaming_platform.Spec.Pointer.{get_ptr, check_indices, store}
use social_gaming_platform.Spec.State.{GameState, RuleState, enqueue_global_message}
use social_gaming_platform.Interpreter.Library.{Library}
use social_gaming_platform.Interpreter.Tokens.{tokenize_dot_notation, interpolate_string}
use social_gaming_platform.Interpreter.Evaluate.{evaluate_expression}

-- `state.ruleStateStack.top()`, read and changed through the pointer `rule_state`.
abbrev top_of : List RuleState → Run GameState RuleState
top_of [] s = undefined
top_of (r ∷ rs) s = ok r s

abbrev pub top : Run GameState RuleState
top s = top_of s.rule_state_stack s

abbrev change_first : (RuleState → RuleState) → List RuleState → List RuleState
change_first f [] = []
change_first f (r ∷ rs) = f r ∷ rs

abbrev pub set_top : (RuleState → RuleState) → Run GameState (Unit {0})
set_top f = modify (λ s. record s { rule_state_stack = change_first f s.rule_state_stack })

abbrev pub finish : Run GameState (Unit {0})
finish = set_top (λ r. record r { finished = true })

abbrev pub set_in_progress : Bool → Run GameState (Unit {0})
set_in_progress b = set_top (λ r. record r { nested_rules_in_progress = b })

abbrev pub set_variables : ExpMap → Run GameState (Unit {0})
set_variables m = modify (λ s. record s { variables = m })

-- `state.context.back()`, changed.
abbrev change_back : (ExpMap → ExpMap) → List ExpMap → Run GameState (Unit {0})
change_back f [] s = undefined
change_back f (m ∷ ms) s = ok tt (record s { context = f m ∷ ms })

abbrev pub set_back : (ExpMap → ExpMap) → Run GameState (Unit {0})
set_back f s = change_back f s.context s

-- `elemList.list[i]`.
abbrev pub list_at : Option Expression → Run GameState Expression
list_at none = fault
list_at (some e) = pure e

-- visitImpl(ForEach&); elemListSize is the size that the constructor took of the list.
abbrev pub next_element : ExpList → Text → RuleState → Run GameState (Unit {0})
next_element elem_list elem rule_state =
    if leb (get_size elem_list) rule_state.elem_list_index
    then (do finish; set_back (erase_key elem))
    else (do
      set_in_progress true
      e ← list_at (element_at rule_state.elem_list_index elem_list)
      set_back (assign_key elem e)
      set_top (λ r. record r { elem_list_index = r.elem_list_index + 1 }))

unfoldable pub visit_for_each : ExpList → Expression → Run GameState (Unit {0})
unfolding get_size element_at assign_key erase_key cast_string
visit_for_each elem_list elem = do
  name ← cast_string elem
  rule_state ← top
  next_element elem_list name rule_state

-- visitImpl(Add&). A sum that no int holds is undefined.
abbrev pub to_pointer : Option Expression → Run GameState Expression
to_pointer none = throw (runtime_error (codes "invalid \"to\" object name in Add rule"))
to_pointer (some e) = pure e

abbrev pub int_sum : ℤ → ℤ → Run GameState ℤ
int_sum a b = if fits_int (a +ℤ b) then pure (a +ℤ b) else fault

module _ (lib : Library) where
  abbrev pub add_at : List Text → Expression → Run GameState (Unit {0})
  add_at tokens value_exp = do
    check_indices tokens
    found ← gets (λ s. get_ptr tokens s.variables)
    ptr ← to_pointer found
    to ← cast_int ptr
    evaluated ← evaluate_expression lib value_exp
    value ← cast_int evaluated
    sum ← int_sum to value
    variables ← gets (λ s. s.variables)
    stored ← store tokens (exp_int sum) variables
    set_variables stored
    finish

  unfoldable pub visit_add : Expression → Expression → Run GameState (Unit {0})
  unfolding get_ptr cast_int cast_string tokenize_dot_notation evaluate_expression ◌+ℤ◌ store
  visit_add to value = do
    rule_state ← top
    to_exp ← cast_string to
    add_at (tokenize_dot_notation to_exp) value

-- visitImpl(GlobalMessage&).
unfoldable pub visit_global_message : Text → Run GameState (Unit {0})
unfolding interpolate_string enqueue_global_message
visit_global_message content = enqueue_global_message (interpolate_string content)

-- visitImpl(Reverse&) and visitImpl(Shuffle&): the list in the variables is replaced.
abbrev pub replace_list : (ExpList → ExpList) → Text → Option Expression → Run GameState (Unit {0})
replace_list f name none = pure tt
replace_list f name (some e) = do
  l ← cast_list e
  modify (λ s. record s { variables = assign_key name (exp_list (f l)) s.variables })

unfoldable pub visit_reverse : Expression → Run GameState (Unit {0})
unfolding reverse_list find_key assign_key cast_list cast_string
visit_reverse list = do
  list_name ← cast_string list
  found ← gets (λ s. find_key list_name s.variables)
  replace_list reverse_list list_name found

unfoldable pub visit_shuffle : Library → Expression → Run GameState (Unit {0})
unfolding find_key assign_key cast_list cast_string
visit_shuffle lib list = do
  list_name ← cast_string list
  found ← gets (λ s. find_key list_name s.variables)
  replace_list lib.shuffled list_name found
