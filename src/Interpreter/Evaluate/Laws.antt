-- ===== src/Interpreter/Evaluate/Laws.antt =====
-- Which environment a name is read from (module/game_manager/src/DSLInterpreter.cpp).
use social_gaming_platform.Prelude.{
  ℕ, suc, Option, none, some, List, [], ◌∷◌, ◌++◌, Text, codes, ◌≡◌, refl, ap, ◌∙◌,
}
use social_gaming_platform.Run.{Run, throw, runtime_error, ◌>>=◌}
use social_gaming_platform.Spec.Expression.{Expression, ExpMap, exp_string}
use social_gaming_platform.Spec.Pointer.{get_ptr}
use social_gaming_platform.Spec.State.{
  GameState, Scope, local_scope, variables_scope, constants_scope,
}
use social_gaming_platform.Interpreter.Library.{Library}
use social_gaming_platform.Interpreter.Tokens.{tokenize_dot_notation}
use social_gaming_platform.Interpreter.Evaluate.{
  apply_attributes, look_up_scopes, lookup_local_scope, lookup_global_scope, lookup_with_indices,
  look_up, names_of, attributes_of, evaluate_found, evaluate_expression, or_else, place,
}

-- The environments in the order in which they are searched: the context from the innermost scope out,
-- the variables, the constants.
abbrev pub environments : GameState → List ExpMap
environments s = s.context ++ s.variables ∷ s.constants ∷ []

-- The first environment in which a path leads to something.
abbrev pub first_found : List Text → List ExpMap → Option Expression
first_found is [] = none
first_found is (m ∷ ms) = or_else (get_ptr is m) (first_found is ms)

abbrev value : Option (Scope × Expression) → Option Expression
value none = none
value (some p) = some p.1

value-place :
    (scope : Scope) (o : Option Expression) (r : Option (Scope × Expression))
    (u : Option Expression)
    → value r ≡ u
    → value (or_else (place scope o) r) ≡ or_else o u
value-place scope none r u h = h
value-place scope (some e) r u h = refl

regroup_or :
    (o q r : Option (Scope × Expression)) → or_else (or_else o q) r ≡ or_else o (or_else q r)
regroup_or none q r = refl
regroup_or (some p) q r = refl

value-place-alone : (scope : Scope) (o : Option Expression) → value (place scope o) ≡ or_else o none
value-place-alone scope none = refl
value-place-alone scope (some e) = refl

scopes_lem :
    (is : List Text) (n : ℕ) (ms ns : List ExpMap) (r : Option (Scope × Expression))
    → value r ≡ first_found is ns
    → value (or_else (look_up_scopes is n ms) r) ≡ first_found is (ms ++ ns)
unfolding look_up_scopes
scopes_lem is n [] ns r h = h
scopes_lem is n (m ∷ ms) ns r h =
    ap value (regroup_or (place (local_scope n) (get_ptr is m)) (look_up_scopes is (suc n) ms) r)
    ∙ value-place (local_scope n) (get_ptr is m) (or_else (look_up_scopes is (suc n) ms) r)
        (first_found is (ms ++ ns)) (scopes_lem is (suc n) ms ns r h)

look_up_lem :
    (is : List Text) (s : GameState) → value (look_up is s) ≡ first_found is (environments s)
unfolding lookup_local_scope lookup_global_scope
look_up_lem is s =
    scopes_lem is 0 s.context (s.variables ∷ s.constants ∷ [])
      (or_else (place variables_scope (get_ptr is s.variables))
        (place constants_scope (get_ptr is s.constants)))
      (value-place variables_scope (get_ptr is s.variables)
        (place constants_scope (get_ptr is s.constants)) (or_else (get_ptr is s.constants) none)
        (value-place-alone constants_scope (get_ptr is s.constants)))

abbrev pub outcome : Library → Text → List Text → Option Expression → Run GameState Expression
outcome lib t attributes none =
    throw (runtime_error (codes "invalid object name in evaluateExpression: " ++ t))
outcome lib t attributes (some e) = apply_attributes lib e attributes

evaluate_value :
    (lib : Library) (t : Text) (attributes : List Text) (o : Option (Scope × Expression))
    (s : GameState)
    → evaluate_found lib t attributes o s ≡ outcome lib t attributes (value o) s
evaluate_value lib t attributes none s = refl
evaluate_value lib t attributes (some p) s = refl

-- A text with at least one name before its first attribute is evaluated in the first environment, of the
-- scopes of the context from the innermost out, the variables and the constants, in which its names lead to
-- something: the attributes are applied to that. Without such an environment a runtime_error names the
-- text.
pub evaluate_lem :
    (lib : Library) (t n : Text) (ns : List Text) (s : GameState)
    → names_of (tokenize_dot_notation t) ≡ n ∷ ns
    → evaluate_expression lib (exp_string t) s
      ≡ outcome lib t
          (attributes_of (tokenize_dot_notation t))
          (first_found (n ∷ ns) (environments s))
          s
unfolding evaluate_expression lookup_with_indices
evaluate_lem lib t n ns s h =
    ap
      (λ is.
        (lookup_with_indices is >>= λ o.
        evaluate_found lib t (attributes_of (tokenize_dot_notation t)) o)
          s)
      h
    ∙ evaluate_value lib t (attributes_of (tokenize_dot_notation t)) (look_up (n ∷ ns) s) s
    ∙ ap (λ o. outcome lib t (attributes_of (tokenize_dot_notation t)) o s) (look_up_lem (n ∷ ns) s)
