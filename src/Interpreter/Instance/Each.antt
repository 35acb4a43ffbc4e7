-- ===== src/Interpreter/Instance/Each.antt =====
-- The loop of GameInstance::updateState on a rule for each element of a list
-- (module/game_manager/include/GameInstance.h, module/game_manager/src/DSLInterpreter.cpp).
use social_gaming_platform.Prelude.{
  ℕ, zero, suc, ◌+◌, Bool, true, false, none, some, List, ◌∷◌, Text, leb, ◌≡◌, refl, arith, ap, ◌∙◌,
}
use social_gaming_platform.Run.{continue, ok, pure}
use social_gaming_platform.Spec.Expression.{
  Expression, ExpMap, ExpList, exp_string, empty_list, element, get_size, element_at, assign_key,
  erase_key, cast_string,
}
use social_gaming_platform.Spec.Rule.{Rule, null, rule, for_each}
use social_gaming_platform.Spec.State.{GameState, RuleState, make_rule_state}
use social_gaming_platform.Interpreter.Library.{Library}
use social_gaming_platform.Interpreter.Visit.{visit_for_each, next_element}
use social_gaming_platform.Interpreter.Accept.{accept}
use social_gaming_platform.Interpreter.Instance.{
  after_visit, push_rule, go_on, visit_top, update_state,
}

size_bound :
    (i : ℕ) (l : ExpList) (e : Expression) → element_at i l ≡ some e → leb (get_size l) i ≡ false
unfolding element_at get_size
size_bound i empty_list e h = cc h
size_bound zero (element d l) e h = ground arith
size_bound (suc i) (element d l) e h = ground (arith, size_bound i l e h)

size_end : (i : ℕ) (l : ExpList) → element_at i l ≡ none → leb (get_size l) i ≡ true
unfolding element_at get_size
size_end i empty_list h = ground arith
size_end zero (element d l) h = cc h
size_end (suc i) (element d l) h = ground (arith, size_end i l h)

-- A state with this context and this stack.
abbrev pub inside : GameState → List ExpMap → List RuleState → GameState
inside s cs rs = record s { context = cs; rule_state_stack = rs }

-- The stack when the rule is pushed.
abbrev pub with_rule : Rule → List RuleState → List RuleState
with_rule null rs = rs
with_rule (rule a k next nested) rs = make_rule_state (rule a k next nested) ∷ rs

push_lem :
    (r : Rule) (s : GameState) (cs : List ExpMap) (rs : List RuleState)
    → push_rule r (inside s cs rs) ≡ ok tt (inside s cs (with_rule r rs))
unfolding push_rule
push_lem null s cs rs = refl
push_lem (rule a k next nested) s cs rs = refl

-- The state of the rule at the index `i`, with its flags `nestedRulesInProgess` and `finished`.
module _ (a : ℕ) (l : ExpList) (name : Text) (next nested : Rule) where
  abbrev pub each_state : ℕ → Bool → Bool → RuleState
  each_state i b f = record {
    rule = rule a (for_each l (exp_string name)) next nested;
    next = next;
    nested = nested;
    finished = f;
    needs_input = false;
    nested_rules_in_progress = b;
    elem_list_index = i;
  }

  module _ (lib : Library) (s : GameState) (c : ExpMap) (cs : List ExpMap) (rs : List RuleState)
      (now : ℕ) where
    bind_element :
        (i : ℕ) (b : Bool) (e : Expression)
        → element_at i l ≡ some e
        → next_element l name (each_state i b false) (inside s (c ∷ cs) (each_state i b false ∷ rs))
          ≡ ok tt (inside s (assign_key name e c ∷ cs) (each_state (i + 1) true false ∷ rs))
    bind_element i b e h = rw (size_bound i l e h, h) refl

    erase_element :
        (i : ℕ)
        → element_at i l ≡ none
        → next_element l name
            (each_state i true false)
            (inside s (c ∷ cs) (each_state i true false ∷ rs))
          ≡ ok tt (inside s (erase_key name c ∷ cs) (each_state i true true ∷ rs))
    erase_element i h = rw (size_end i l h) refl

    first_visit :
        (e : Expression)
        → element_at 0 l ≡ some e
        → visit_top lib now
            (each_state 0 false false)
            (inside s (c ∷ cs) (each_state 0 false false ∷ rs))
          ≡ ok true (inside s (assign_key name e c ∷ cs) (each_state 1 true false ∷ rs))
    unfolding visit_top accept after_visit visit_for_each cast_string
    first_visit e h =
        ap (λ o. continue o (λ u. after_visit (each_state 0 false false)))
          (bind_element 0 false e h)

    next_visit :
        (i : ℕ) (e : Expression)
        → element_at i l ≡ some e
        → visit_top lib now
            (each_state i true false)
            (inside s (c ∷ cs) (each_state i true false ∷ rs))
          ≡ ok true (
              inside s
                (assign_key name e c ∷ cs)
                (with_rule nested (each_state (i + 1) true false ∷ rs)))
    unfolding visit_top accept after_visit visit_for_each cast_string
    next_visit i e h =
        ap (λ o. continue o (λ u. after_visit (each_state i true false))) (bind_element i true e h)
        ∙ ap (λ o. continue o (λ u. pure true))
            (push_lem nested s (assign_key name e c ∷ cs) (each_state (i + 1) true false ∷ rs))

    last_visit :
        (i : ℕ)
        → element_at i l ≡ none
        → visit_top lib now
            (each_state i true false)
            (inside s (c ∷ cs) (each_state i true false ∷ rs))
          ≡ ok true
              (inside s (erase_key name c ∷ cs) (with_rule nested (each_state i true true ∷ rs)))
    unfolding visit_top accept after_visit visit_for_each cast_string
    last_visit i h =
        ap (λ o. continue o (λ u. after_visit (each_state i true false))) (erase_element i h)
        ∙ ap (λ o. continue o (λ u. pure true))
            (push_lem nested s (erase_key name c ∷ cs) (each_state i true true ∷ rs))

after_round :
    (lib : Library) (now : ℕ) (readings : List ℕ) (r : RuleState) (rs : List RuleState)
    (s : GameState) (cs : List ExpMap) (t : GameState)
    → visit_top lib now r (inside s cs (r ∷ rs)) ≡ ok true t
    → update_state lib (now ∷ readings) (inside s cs (r ∷ rs)) ≡ update_state lib readings t
unfolding update_state
after_round lib now readings r rs s cs t h =
    ap (λ o. continue o (λ again. go_on again (update_state lib readings))) h

-- The rounds of a rule for each element of a list, with a name for the element and with nested rules.
-- The first round gives the name to the first element and does not start the nested rules. A round at a
-- later index gives the name to the element there and starts them. The round past the end erases the name
-- and starts them once more.
pub for_each_lem :
    (lib : Library) (s : GameState) (c : ExpMap) (cs : List ExpMap) (rs : List RuleState) (a : ℕ)
    (l : ExpList) (name : Text) (next nested : Rule) (now : ℕ) (readings : List ℕ) (d : Expression)
    (i : ℕ) (e : Expression) (n : ℕ)
    → element_at 0 l ≡ some d
    → element_at i l ≡ some e
    → element_at n l ≡ none
    → (update_state lib (now ∷ readings) (
          inside s
            (c ∷ cs)
            (make_rule_state (rule a (for_each l (exp_string name)) next nested) ∷ rs))
        ≡ update_state lib readings (
            inside s
              (assign_key name d c ∷ cs)
              (each_state a l name next nested 1 true false ∷ rs)))
      × (update_state lib
            (now ∷ readings)
            (inside s (c ∷ cs) (each_state a l name next nested i true false ∷ rs))
          ≡ update_state lib readings (
              inside s
                (assign_key name e c ∷ cs)
                (with_rule nested (each_state a l name next nested (i + 1) true false ∷ rs))))
      × (update_state lib
            (now ∷ readings)
            (inside s (c ∷ cs) (each_state a l name next nested n true false ∷ rs))
          ≡ update_state lib readings (
              inside s
                (erase_key name c ∷ cs)
                (with_rule nested (each_state a l name next nested n true true ∷ rs))))
unfolding make_rule_state
for_each_lem lib s c cs rs a l name next nested now readings d i e n h0 hi hn = (
  after_round lib now readings _ rs s (c ∷ cs) _
      (first_visit a l name next nested lib s c cs rs now d h0),
  after_round lib now readings _ rs s (c ∷ cs) _
      (next_visit a l name next nested lib s c cs rs now i e hi),
  after_round lib now readings _ rs s (c ∷ cs) _
      (last_visit a l name next nested lib s c cs rs now n hn),
)
