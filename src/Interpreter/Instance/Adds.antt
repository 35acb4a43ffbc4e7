-- ===== src/Interpreter/Instance/Adds.antt =====
-- The loop of GameInstance::updateState on rules that add
-- (module/game_manager/include/GameInstance.h, module/game_manager/src/DSLInterpreter.cpp).
use social_gaming_platform.Prelude.{
  ℕ, ◌*◌, Bool, true, false, ◌&&◌, some, List, [], ◌∷◌, Text, length, ◌≡◌, refl, arith, ap, ◌∙◌,
}
use social_gaming_platform.Prelude.Int.{ℤ, ◌+ℤ◌, fits_int}
use social_gaming_platform.Run.{continue, ok, pure}
use social_gaming_platform.Spec.Expression.{
  Expression, ExpMap, exp_int, exp_string, cast_int, cast_string,
}
use social_gaming_platform.Spec.Pointer.{get_ptr, put}
use social_gaming_platform.Spec.Pointer.Laws.{get_put, store_ok}
use social_gaming_platform.Spec.Rule.{Rule, null, rule, add}
use social_gaming_platform.Spec.State.{GameState, RuleState, make_rule_state}
use social_gaming_platform.Interpreter.Library.{Library}
use social_gaming_platform.Interpreter.Tokens.{tokenize_dot_notation}
use social_gaming_platform.Interpreter.Evaluate.{evaluate_expression}
use social_gaming_platform.Interpreter.Visit.{visit_add, add_at}
use social_gaming_platform.Interpreter.Accept.{accept}
use social_gaming_platform.Interpreter.Instance.{
  go_on, finished, after_visit, push_rule, visit_top, update_state,
}

-- A state with these variables and this stack.
abbrev pub at : GameState → ExpMap → List RuleState → GameState
at s m rs = record s { variables = m; rule_state_stack = rs }

empty_path : {A : Type 0} {e : Expression} (m : ExpMap) → get_ptr [] m ≡ some e → A
unfolding get_ptr
empty_path m h = cc h

module _ (lib : Library) (s : GameState) (rs : List RuleState) where
  add_at_ok :
      (p : List Text) (x v : ℤ) (m : ExpMap) (r : RuleState)
      → get_ptr p m ≡ some (exp_int x)
      → fits_int (x +ℤ v) ≡ true
      → add_at lib p (exp_int v) (at s m (r ∷ rs))
        ≡ ok tt (at s (put p (exp_int (x +ℤ v)) m) (record r { finished = true } ∷ rs))
  unfolding cast_int evaluate_expression
  add_at_ok [] x v m r h f = empty_path m h
  add_at_ok (i ∷ is) x v m r h f =
      rw (h, f, store_ok (i ∷ is) (exp_int (x +ℤ v)) (exp_int x) m (at s m (r ∷ rs)) h) refl

  visit_add_lem :
      (name : Text) (p : List Text) (x v : ℤ) (m : ExpMap) (r : RuleState)
      → tokenize_dot_notation name ≡ p
      → get_ptr p m ≡ some (exp_int x)
      → fits_int (x +ℤ v) ≡ true
      → visit_add lib (exp_string name) (exp_int v) (at s m (r ∷ rs))
        ≡ ok tt (at s (put p (exp_int (x +ℤ v)) m) (record r { finished = true } ∷ rs))
  unfolding visit_add cast_string
  visit_add_lem name p x v m r t h f =
      ap (λ q. add_at lib q (exp_int v) (at s m (r ∷ rs))) t ∙ add_at_ok p x v m r h f

  abbrev pub pushed : Rule → List RuleState
  pushed null = rs
  pushed (rule a k next nested) = make_rule_state (rule a k next nested) ∷ rs

  push_rule_lem :
      (next : Rule) (m : ExpMap) → push_rule next (at s m rs) ≡ ok tt (at s m (pushed next))
  unfolding push_rule
  push_rule_lem null m = refl
  push_rule_lem (rule a k next nested) m = refl

  -- The rule state of an add, when its flag `finished` is as given.
  abbrev pub add_state : Text → ℤ → Rule → Bool → RuleState
  add_state name v next b =
      record (make_rule_state (rule 0 (add (exp_string name) (exp_int v)) next null)) {
        finished = b;
      }

  module _ (name : Text) (p : List Text) (x v : ℤ) (m : ExpMap) (next : Rule)
      (t : tokenize_dot_notation name ≡ p) (h : get_ptr p m ≡ some (exp_int x))
      (f : fits_int (x +ℤ v) ≡ true) where
    first_visit :
        (now : ℕ)
        → visit_top lib now
            (add_state name v next false)
            (at s m (add_state name v next false ∷ rs))
          ≡ ok true (at s (put p (exp_int (x +ℤ v)) m) (add_state name v next true ∷ rs))
    unfolding visit_top accept after_visit make_rule_state
    first_visit now =
        ap (λ o. continue o (λ u. after_visit (add_state name v next false)))
          (visit_add_lem name p x v m (add_state name v next false) t h f)

    second_visit :
        (now : ℕ)
        → visit_top lib now (add_state name v next true) (at s m (add_state name v next true ∷ rs))
          ≡ ok true (at s (put p (exp_int (x +ℤ v)) m) (pushed next))
    unfolding visit_top accept after_visit make_rule_state
    second_visit now =
        ap (λ o. continue o (λ u. after_visit (add_state name v next true)))
          (visit_add_lem name p x v m (add_state name v next true) t h f)
        ∙ ap (λ o. continue o (λ u. pure true)) (push_rule_lem next (put p (exp_int (x +ℤ v)) m))

    first_round :
        (now : ℕ) (readings : List ℕ)
        → update_state lib (now ∷ readings) (at s m (add_state name v next false ∷ rs))
          ≡ update_state lib readings
              (at s (put p (exp_int (x +ℤ v)) m) (add_state name v next true ∷ rs))
    unfolding update_state
    first_round now readings =
        ap (λ o. continue o (λ again. go_on again (update_state lib readings))) (first_visit now)

    second_round :
        (now : ℕ) (readings : List ℕ)
        → update_state lib (now ∷ readings) (at s m (add_state name v next true ∷ rs))
          ≡ update_state lib readings (at s (put p (exp_int (x +ℤ v)) m) (pushed next))
    unfolding update_state
    second_round now readings =
        ap (λ o. continue o (λ again. go_on again (update_state lib readings))) (second_visit now)

-- A chain of rules that each add a number to the variable of this name.
abbrev pub adds : Text → List ℤ → Rule
adds name [] = null
adds name (v ∷ vs) = rule 0 (add (exp_string name) (exp_int v)) (adds name vs) null

-- What the variable holds when every number has been added twice, and whether all the sums on the way
-- are ints.
abbrev pub added_twice : ℤ → List ℤ → ℤ
added_twice x [] = x
added_twice x (v ∷ vs) = added_twice (x +ℤ v +ℤ v) vs

abbrev pub sums_fit : ℤ → List ℤ → Bool
sums_fit x [] = true
sums_fit x (v ∷ vs) = fits_int (x +ℤ v) && (fits_int (x +ℤ v +ℤ v) && sums_fit (x +ℤ v +ℤ v) vs)

split_and : (a b : Bool) → (a && b) ≡ true → (a ≡ true) × (b ≡ true)
split_and true b h = (refl, h)
split_and false b h = cc h

no_rule :
    (lib : Library) (s : GameState) (m : ExpMap)
    → update_state lib [] (at s m []) ≡ ok finished (at s m [])
unfolding update_state
no_rule lib s m = refl

-- A chain of `add` rules whose `to` names a variable that holds an int: where all the sums on the way are
-- ints, the loop ends after two rounds for each rule, without a throw, and each number has been added
-- twice.
pub adds_lem :
    (lib : Library) (s : GameState) (name : Text) (p : List Text) (vs : List ℤ) (x : ℤ) (m : ExpMap)
    (readings : List ℕ)
    → tokenize_dot_notation name ≡ p
    → get_ptr p m ≡ some (exp_int x)
    → sums_fit x vs ≡ true
    → length readings ≡ 2 * length vs
    → (m' : ExpMap) × (update_state lib readings (at s m (pushed lib s [] (adds name vs)))
        ≡ ok finished (at s m' []))
      × (get_ptr p m' ≡ some (exp_int (added_twice x vs)))
unfolding make_rule_state
adds_lem lib s name p [] x m [] t h f n = (m, no_rule lib s m, h)
adds_lem lib s name p [] x m (r ∷ rs) t h f n = cc n
adds_lem lib s name p (v ∷ vs) x m [] t h f n = ground (arith, n)
adds_lem lib s name p (v ∷ vs) x m (r ∷ []) t h f n = ground (arith, n)
adds_lem lib s name p (v ∷ vs) x m (r ∷ q ∷ readings) t h f n =
    let first =
      split_and (fits_int (x +ℤ v)) (fits_int (x +ℤ v +ℤ v) && sums_fit (x +ℤ v +ℤ v) vs) f in
    let second = split_and (fits_int (x +ℤ v +ℤ v)) (sums_fit (x +ℤ v +ℤ v) vs) first.1 in
    let m1 : ExpMap = put p (exp_int (x +ℤ v)) m in
    let h1 : get_ptr p m1 ≡ some (exp_int (x +ℤ v)) =
      get_put p (exp_int (x +ℤ v)) m (exp_int x) h in
    let m2 : ExpMap = put p (exp_int (x +ℤ v +ℤ v)) m1 in
    let h2 : get_ptr p m2 ≡ some (exp_int (x +ℤ v +ℤ v)) =
      get_put p (exp_int (x +ℤ v +ℤ v)) m1 (exp_int (x +ℤ v)) h1 in
    let rest =
      adds_lem lib s name p vs (x +ℤ v +ℤ v) m2 readings t h2 second.1 (omega (arith, n)) in
    (
      rest.0,
      first_round lib s [] name p x v m (adds name vs) t h first.0 r (q ∷ readings)
          ∙ second_round lib s [] name p (x +ℤ v) v m1 (adds name vs) t h1 second.0 q readings
          ∙ rest.1,
      rest.2,
    )
