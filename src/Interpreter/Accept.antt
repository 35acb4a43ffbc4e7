-- ===== src/Interpreter/Accept.antt =====
-- Rule::accept with an InterpretVisitor, and the visitors of the rules that ask for input
-- (module/game_manager/src/DSLInterpreter.cpp, module/game_spec/include/Rule.h).
use social_gaming_platform.Prelude.{ℕ, Option}
use social_gaming_platform.Run.{Run, pure, modify, ◌>>=◌}
use social_gaming_platform.Spec.Expression.{Expression, exp_map, empty_map}
use social_gaming_platform.Spec.Rule.{
  Kind, for_each, parallel_for, in_parallel, loop, switch, when, extend, reverse, shuffle, sort,
  add, timer, discard, deal, input_choice, input_text, input_vote, message, global_message, scores,
}
use social_gaming_platform.Spec.State.{GameState, choice, text, enqueue_input_request}
use social_gaming_platform.Interpreter.Library.{Library}
use social_gaming_platform.Interpreter.Evaluate.{create_input_request}
use social_gaming_platform.Interpreter.Visit.{
  visit_for_each, visit_add, visit_global_message, visit_reverse, visit_shuffle,
}
use social_gaming_platform.Interpreter.Visit.Timer.{visit_timer}
use social_gaming_platform.Interpreter.Lists.Taking.{visit_discard, visit_deal}

-- visitImpl(InputChoice&) and visitImpl(InputText&), which passes a default Expression, an empty map, as
-- the list of choices.
unfoldable pub visit_input_choice :
    Library
    → Expression
    → Expression
    → Expression
    → Expression
    → Option Expression
    → Run GameState (Unit {0})
unfolding create_input_request enqueue_input_request
visit_input_choice lib target_user prompt choice_list result timeout = do
  request ← create_input_request lib choice target_user prompt choice_list result timeout
  modify (enqueue_input_request request)

unfoldable pub visit_input_text :
    Library → Expression → Expression → Expression → Option Expression → Run GameState (Unit {0})
unfolding create_input_request enqueue_input_request
visit_input_text lib target_user prompt result timeout = do
  request ← create_input_request lib text target_user prompt (exp_map empty_map) result timeout
  modify (enqueue_input_request request)

-- Rule::accept: the visitor of the rule's kind. The kinds that InterpretVisitor does not override have
-- the empty visitors of RuleVisitor.
unfoldable pub accept : Library → ℕ → ℕ → Kind → Run GameState (Unit {0})
unfolding visit_for_each visit_add visit_global_message visit_reverse visit_shuffle visit_timer
    visit_input_choice visit_input_text visit_discard visit_deal
accept lib now a (for_each elem_list elem) = visit_for_each elem_list elem
accept lib now a (add to value) = visit_add lib to value
accept lib now a (global_message content) = visit_global_message content
accept lib now a (reverse list) = visit_reverse list
accept lib now a (shuffle list) = visit_shuffle lib list
accept lib now a (timer duration mode flag) = visit_timer now a duration mode flag
accept lib now a (input_choice user prompt choices result timeout) =
    visit_input_choice lib user prompt choices result timeout
accept lib now a (input_text user prompt result timeout) =
    visit_input_text lib user prompt result timeout
accept lib now a (discard from_list count) = visit_discard from_list count
accept lib now a (deal from_list to_list count) = visit_deal from_list to_list count
accept lib now a (parallel_for elem_list elem) = pure tt
accept lib now a in_parallel = pure tt
accept lib now a (loop type) = pure tt
accept lib now a (switch target values) = pure tt
accept lib now a when = pure tt
accept lib now a (extend target list) = pure tt
accept lib now a (sort list key) = pure tt
accept lib now a (input_vote users prompt choices result timeout) = pure tt
accept lib now a (message users content) = pure tt
accept lib now a (scores attribute ascending) = pure tt
