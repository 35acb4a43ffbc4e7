-- ===== src/Interpreter/Evaluate.antt =====
-- The expressions of the game language and the requests for input
-- (module/game_manager/src/DSLInterpreter.cpp).
pub mod Laws
use social_gaming_platform.Prelude.{
  ℕ, suc, true, false, Option, none, some, List, [], ◌∷◌, ◌++◌, Text, codes, if◌then◌else◌,
}
use social_gaming_platform.Prelude.Int.{ℤ}
use social_gaming_platform.Run.{Run, fault, pure, throw, runtime_error, ◌>>=◌, ◌>>◌}
use social_gaming_platform.Spec.Expression.{
  Expression, ExpMap, ExpList, exp_map, exp_list, exp_int, exp_bool, exp_string, empty_list,
  element, find_key, cast_int, cast_string, cast_list, cast_map,
}
use social_gaming_platform.Spec.Pointer.{get_ptr, check_indices}
use social_gaming_platform.Spec.State.{
  GameState, InputRequest, InputType, Scope, local_scope, variables_scope, constants_scope,
  check_named,
}
use social_gaming_platform.Interpreter.Library.{Library}
use social_gaming_platform.Interpreter.Tokens.{
  tokenize_dot_notation, is_attribute, interpolate_string,
}
use social_gaming_platform.Interpreter.Attributes.{apply_attribute}

-- A pointer to an expression: the environment that its path leads into, and what it leads to.
abbrev pub Place : Type 0
Place = Scope × Expression

-- lookupLocalScope: the environments of the context from the back.
abbrev pub or_else : {A : Type 0} → Option A → Option A → Option A
or_else (some a) o = some a
or_else none o = o

abbrev pub place : Scope → Option Expression → Option Place
place scope none = none
place scope (some e) = some (scope, e)

unfoldable pub look_up_scopes : List Text → ℕ → List ExpMap → Option Place
unfolding get_ptr
look_up_scopes is n [] = none
look_up_scopes is n (m ∷ ms) =
    or_else (place (local_scope n) (get_ptr is m)) (look_up_scopes is (suc n) ms)

unfoldable pub lookup_local_scope : List Text → GameState → Option Place
unfolding look_up_scopes
lookup_local_scope is s = look_up_scopes is 0 s.context

-- lookupGlobalScope.
unfoldable pub lookup_global_scope : List Text → GameState → Option Place
unfolding get_ptr
lookup_global_scope is s =
    or_else (place variables_scope (get_ptr is s.variables))
      (place constants_scope (get_ptr is s.constants))

-- lookupWithIndices. The assertion of getPtr that there is an index comes first.
abbrev pub look_up : List Text → GameState → Option Place
look_up is s = or_else (lookup_local_scope is s) (lookup_global_scope is s)

unfoldable pub lookup_with_indices : List Text → Run GameState (Option Place)
unfolding lookup_local_scope lookup_global_scope
lookup_with_indices is = do check_indices is; λ s. pure (look_up is s) s

-- lookupName.
unfoldable pub lookup_name : Text → Run GameState (Option Place)
unfolding lookup_with_indices tokenize_dot_notation
lookup_name name = lookup_with_indices (tokenize_dot_notation name)

-- The tokens up to the first attribute, and the others.
unfoldable pub names_of : List Text → List Text
unfolding is_attribute
names_of [] = []
names_of (t ∷ ts) = let rest = names_of ts in if is_attribute t then [] else t ∷ rest

unfoldable pub attributes_of : List Text → List Text
unfolding is_attribute
attributes_of [] = []
attributes_of (t ∷ ts) = let rest = attributes_of ts in if is_attribute t then t ∷ ts else rest

module _ (lib : Library) where
  unfoldable pub apply_attributes : Expression → List Text → Run GameState Expression
  unfolding apply_attribute
  apply_attributes e [] = pure e
  apply_attributes e (a ∷ as') = do r ← apply_attribute lib e a; apply_attributes r as'

  abbrev pub evaluate_found : Text → List Text → Option Place → Run GameState Expression
  evaluate_found str attributes none =
      throw (runtime_error (codes "invalid object name in evaluateExpression: " ++ str))
  evaluate_found str attributes (some (scope, e)) = apply_attributes e attributes

  abbrev pub evaluate_name : Text → Run GameState Expression
  evaluate_name str =
      let tokens = tokenize_dot_notation str in
      (do
        found ← lookup_with_indices (names_of tokens)
        evaluate_found str (attributes_of tokens) found)

  -- evaluateExpression.
  unfoldable pub evaluate_expression : Expression → Run GameState Expression
  unfolding tokenize_dot_notation names_of attributes_of lookup_with_indices apply_attributes
  evaluate_expression (exp_string t) s = evaluate_name t s
  evaluate_expression (exp_map m) s = pure (exp_map m) s
  evaluate_expression (exp_list l) s = pure (exp_list l) s
  evaluate_expression (exp_int i) s = pure (exp_int i) s
  evaluate_expression (exp_bool b) s = pure (exp_bool b) s

-- getExpressionPtr.
unfoldable pub get_expression_ptr : Expression → Run GameState (Option (Place × List Text))
unfolding cast_string lookup_name tokenize_dot_notation
get_expression_ptr name = do
  str ← cast_string name
  found ← lookup_name str
  pure (elim found [ none ↦ none | some p ↦ some (p, tokenize_dot_notation str) ])

-- The choices: std::transform writes each of them past the end of an empty vector.
unfoldable pub choices_of : ExpList → Run GameState (List Text)
unfolding cast_string
choices_of empty_list = pure []
choices_of (element e l) = do t ← cast_string e; fault

abbrev result_place : Option (Place × List Text) → Run GameState (Scope × List Text)
result_place none = throw (runtime_error (codes "invalid result object in "))
result_place (some (p, is)) = pure (p.0, is)

module _ (lib : Library) where
  abbrev pub time_limit : Option Expression → Run GameState (Option ℤ)
  time_limit none = pure none
  time_limit (some e) = do v ← evaluate_expression lib e; i ← cast_int v; pure (some i)

  -- createInputRequest.
  unfoldable pub create_input_request :
      InputType
      → Expression
      → Expression
      → Expression
      → Expression
      → Option Expression
      → Run GameState InputRequest
  unfolding evaluate_expression cast_int cast_map cast_string cast_list find_key interpolate_string
      choices_of get_expression_ptr
  create_input_request type target_user prompt_exp choice_list result_exp timeout = do
    exp ← evaluate_expression lib target_user
    user ← cast_map exp
    check_named (find_key (codes "name") user)
    raw_prompt ← cast_string prompt_exp
    choices_exp ← evaluate_expression lib choice_list
    choice_exp_list ← cast_list choices_exp
    choices ← choices_of choice_exp_list
    found ← get_expression_ptr result_exp
    result ← result_place found
    t_out ← time_limit timeout
    pure (record {
      kind = type;
      target_user = user;
      prompt = interpolate_string raw_prompt;
      choices = choices;
      result_ptr = result;
      timeout = t_out;
    })
