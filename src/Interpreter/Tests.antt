-- ===== src/Interpreter/Tests.antt =====
-- Runs of the theorems about the interpreter (module/game_manager).
use social_gaming_platform.Prelude.{
  ℕ, ◌+◌, ◌-◌, ◌*◌, ◌&&◌, true, false, Option, none, some, [], ◌∷◌, ◌++◌, Text, codes, leb, all,
  if◌then◌else◌, ◌≡◌, refl,
}
use social_gaming_platform.Prelude.Int.{ℤ, pos, negsuc, ◌+ℤ◌, leb_ℤ}
use social_gaming_platform.Run.{ok}
use social_gaming_platform.Spec.Expression.{
  ExpMap, ExpList, exp_list, exp_int, exp_bool, exp_string, empty_map, entry, empty_list, element,
  element_at, assign_key, erase_key, find_key,
}
use social_gaming_platform.Spec.Pointer.{get_ptr}
use social_gaming_platform.Spec.Rule.{Rule, null, rule, for_each, global_message}
use social_gaming_platform.Spec.State.{GameState, make_rule_state}
use social_gaming_platform.Interpreter.Library.{Library}
use social_gaming_platform.Interpreter.Tokens.{
  paren, count_unclosed_parenthesis, tokenize_dot_notation, interpolate_string, is_all_digits,
}
use social_gaming_platform.Interpreter.Tokens.Splits.{is_unsplit}
use social_gaming_platform.Interpreter.Tokens.Laws.{behind_dots, is_balanced, tokenize_lem}
use social_gaming_platform.Interpreter.Tokens.Braces.{interpolate_lem}
use social_gaming_platform.Interpreter.Attributes.{
  inside_parenthesis, apply_upfrom_attribute, apply_contains_attribute,
}
use social_gaming_platform.Interpreter.Attributes.Laws.{upfrom_lem}
use social_gaming_platform.Interpreter.Evaluate.{names_of, attributes_of, evaluate_expression}
use social_gaming_platform.Interpreter.Evaluate.Laws.{
  environments, first_found, outcome, evaluate_lem,
}
use social_gaming_platform.Interpreter.Instance.{update_state, finished}
use social_gaming_platform.Interpreter.Instance.Adds.{at, adds, pushed, added_twice, adds_lem}
use social_gaming_platform.Interpreter.Instance.Each.{inside, with_rule, each_state, for_each_lem}
use social_gaming_platform.Interpreter.Instance.Stuck.{NeverReturned, never_returns_lem}

-- A decimal number of at least one digit.
abbrev digits : Text → ℕ → Option ℤ
digits [] n = some (pos n)
digits (c ∷ s) n =
    let rest = digits s (10 * n + (c - 48)) in if leb 48 c && leb c 57 then rest else none

abbrev decimal : Text → Option ℤ
decimal [] = none
decimal (c ∷ s) = digits (c ∷ s) 0

abbrev library : Library
library = record { lexical_cast = decimal; of_literal = λ t. exp_string t; shuffled = λ l. l }

abbrev score : Text
score = codes "score"

abbrev variables : ExpMap
variables = entry score (exp_int (pos 10)) empty_map

abbrev state : GameState
state = record {
  constants = entry (codes "rounds") (exp_int (pos 3)) empty_map;
  variables = variables;
  per_player = empty_map;
  per_audience = empty_map;
  context = empty_map ∷ [];
  rule_state_stack = [];
  timer_list = [];
  input_requests = [];
  message_queue = [];
}

score_tokens : tokenize_dot_notation score ≡ score ∷ []
unfolding tokenize_dot_notation
score_tokens = refl

score_leads : get_ptr (score ∷ []) variables ≡ some (exp_int (pos 10))
unfolding get_ptr find_key
score_leads = refl

-- The sums 15, 20, 19 and 18 are ints.
adds_lem_example :
    (m' : ExpMap) × (update_state library
        (1 ∷ 2 ∷ 3 ∷ 4 ∷ [])
        (at state variables (pushed library state [] (adds score (pos 5 ∷ negsuc 0 ∷ []))))
      ≡ ok finished (at state m' []))
    × (get_ptr (score ∷ []) m' ≡ some (exp_int (added_twice (pos 10) (pos 5 ∷ negsuc 0 ∷ []))))
unfolding ◌+ℤ◌
adds_lem_example =
    adds_lem library state score (score ∷ []) (pos 5 ∷ negsuc 0 ∷ []) (pos 10) variables
      (1 ∷ 2 ∷ 3 ∷ 4 ∷ []) score_tokens score_leads refl refl

abbrev three : ExpList
three = element (exp_int (pos 7)) (element (exp_int (pos 8)) (element (exp_int (pos 9)) empty_list))

abbrev body : Rule
body = rule 1 (global_message (codes "{x}")) null null

first_of_three : element_at 0 three ≡ some (exp_int (pos 7))
unfolding element_at
first_of_three = refl

third_of_three : element_at 2 three ≡ some (exp_int (pos 9))
unfolding element_at
third_of_three = refl

past_three : element_at 3 three ≡ none
unfolding element_at
past_three = refl

for_each_lem_example :
    (update_state library (1 ∷ []) (
        inside state
          (empty_map ∷ [])
          (make_rule_state (rule 0 (for_each three (exp_string (codes "x"))) null body) ∷ []))
      ≡ update_state library [] (
          inside state
            (assign_key (codes "x") (exp_int (pos 7)) empty_map ∷ [])
            (each_state 0 three (codes "x") null body 1 true false ∷ [])))
    × (update_state library (1 ∷ []) (
          inside state
            (empty_map ∷ [])
            (each_state 0 three (codes "x") null body 2 true false ∷ []))
        ≡ update_state library [] (
            inside state
              (assign_key (codes "x") (exp_int (pos 9)) empty_map ∷ [])
              (with_rule body (each_state 0 three (codes "x") null body 3 true false ∷ []))))
    × (update_state library (1 ∷ []) (
          inside state
            (empty_map ∷ [])
            (each_state 0 three (codes "x") null body 3 true false ∷ []))
        ≡ update_state library [] (
            inside state
              (erase_key (codes "x") empty_map ∷ [])
              (with_rule body (each_state 0 three (codes "x") null body 3 true true ∷ []))))
for_each_lem_example =
    for_each_lem library state empty_map [] [] 0 three (codes "x") null body 1 [] (exp_int (pos 7))
      2 (exp_int (pos 9)) 3 first_of_three third_of_three past_three

never_returns_lem_example : NeverReturned (
    update_state library
      (1 ∷ 2 ∷ 3 ∷ [])
      (record state { rule_state_stack = make_rule_state body ∷ [] }))
never_returns_lem_example =
    never_returns_lem library 1 (global_message (codes "{x}")) null null [] (1 ∷ 2 ∷ 3 ∷ [])
      (record state { rule_state_stack = make_rule_state body ∷ [] }) refl refl

upfrom_of : library.lexical_cast (inside_parenthesis (codes "upfrom(2)")) ≡ some (pos 2)
unfolding inside_parenthesis
upfrom_of = refl

contains_of : library.lexical_cast (inside_parenthesis (codes "contains(4)")) ≡ some (pos 4)
unfolding inside_parenthesis
contains_of = refl

digits_only : is_all_digits (inside_parenthesis (codes "contains(4)")) ≡ true
unfolding inside_parenthesis is_all_digits
digits_only = refl

-- From 2 to 6, where the element at 3 is 5, and 4 is among them.
upfrom_lem_example :
    (l : ExpList) × (apply_upfrom_attribute library (exp_int (pos 6)) (codes "upfrom(2)") state
      ≡ ok (exp_list l) state)
    × (element_at 3 l
        ≡ (if leb_ℤ (pos 2 +ℤ pos 3) (pos 6) then some (exp_int (pos 2 +ℤ pos 3)) else none))
    × (apply_contains_attribute library (exp_list l) (codes "contains(4)") state
        ≡ ok (exp_bool (leb_ℤ (pos 2) (pos 4) && leb_ℤ (pos 4) (pos 6))) state)
upfrom_lem_example =
    upfrom_lem library (codes "upfrom(2)") (codes "contains(4)") (pos 2) (pos 6) (pos 4) 3 state
      upfrom_of refl digits_only contains_of

abbrev name : Text
name = codes "players.contains(a.b).size"

closed : count_unclosed_parenthesis name ≡ pos 0
unfolding count_unclosed_parenthesis paren ◌+ℤ◌
closed = refl

tokenize_lem_example :
    (behind_dots (tokenize_dot_notation name) ≡ 46 ∷ name)
    × (all is_balanced (tokenize_dot_notation name) ≡ true)
    × (all is_unsplit (tokenize_dot_notation name) ≡ true)
tokenize_lem_example = tokenize_lem 112 (codes "layers.contains(a.b).size") closed refl

interpolate_lem_example :
    (interpolate_string (codes "Round " ++ 123 ∷ (codes "round" ++ 125 ∷ codes "!"))
      ≡ codes "Round " ++ (codes "round" ++ codes "!"))
    × (interpolate_string (codes "Round ") ≡ [])
    × (interpolate_string (codes "Round " ++ 123 ∷ codes "round") ≡ [])
interpolate_lem_example = interpolate_lem (codes "Round ") (codes "round") (codes "!") refl refl

abbrev rounds_name : Text
rounds_name = codes "rounds.upfrom(1)"

rounds_names : names_of (tokenize_dot_notation rounds_name) ≡ codes "rounds" ∷ []
unfolding names_of tokenize_dot_notation
rounds_names = refl

-- `rounds` is a constant.
evaluate_lem_example :
    evaluate_expression library (exp_string rounds_name) state
    ≡ outcome library rounds_name
        (attributes_of (tokenize_dot_notation rounds_name))
        (first_found (codes "rounds" ∷ []) (environments state))
        state
evaluate_lem_example = evaluate_lem library rounds_name (codes "rounds") [] state rounds_names
