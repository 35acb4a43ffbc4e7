-- ===== src/Interpreter/Instance/Stuck.antt =====
-- Rules that no visit marks as finished (module/game_manager/include/GameInstance.h,
-- module/game_manager/src/DSLInterpreter.cpp).
use social_gaming_platform.Prelude.{
  ℕ, Bool, true, false, Option, none, some, List, [], ◌∷◌, Text, codes, ◌≡◌, refl, sym, ap,
}
use mathlib.Core.Path.{subst}
use social_gaming_platform.Run.{Run, Outcome, ok, threw, undefined, continue, pure, modify, ◌>>=◌}
use social_gaming_platform.Spec.Expression.{
  Expression, ExpList, exp_map, exp_list, exp_int, exp_bool, exp_string, empty_list, element,
  find_key, cast_string, cast_list, cast_map, reverse_list,
}
use social_gaming_platform.Spec.Rule.{
  Kind, Rule, rule, for_each, parallel_for, in_parallel, loop, switch, when, extend, reverse,
  shuffle, sort, add, timer, discard, deal, input_choice, input_text, input_vote, message,
  global_message, scores,
}
use social_gaming_platform.Spec.State.{
  GameState, RuleState, make_rule_state, check_named, send_to_users, variable_at, message_users,
  enqueue_message, enqueue_global_message,
}
use social_gaming_platform.Interpreter.Library.{Library}
use social_gaming_platform.Interpreter.Visit.{
  visit_global_message, visit_reverse, visit_shuffle, replace_list,
}
use social_gaming_platform.Interpreter.Accept.{accept}
use social_gaming_platform.Interpreter.Instance.{
  Progress, running, at_end, round, after_visit, go_on, visit_top, update_state,
}

-- A return leaves the stack of rule states as it was.
abbrev StackIs : {A : Type 0} → List RuleState → Outcome GameState A → Type 0
StackIs rs (ok a s) = s.rule_state_stack ≡ rs
StackIs rs (threw e s) = Unit {0}
StackIs rs undefined = Unit {0}

record LeavesStack {A : Type 0} (m : Run GameState A) : Type 0 where
  stack_is : (s : GameState) → StackIs s.rule_state_stack (m s)

stack-continue :
    {A B : Type 0} (rs : List RuleState) (o : Outcome GameState A) (k : A → Run GameState B)
    → StackIs rs o
    → ((a : A) → LeavesStack (k a))
    → StackIs rs (continue o k)
stack-continue rs (ok a s) k h l = subst (λ qs. StackIs qs (k a s)) h ((l a).stack_is s)
stack-continue rs (threw e s) k h l = tt
stack-continue rs undefined k h l = tt

leaves-bind :
    {A B : Type 0} (m : Run GameState A) (k : A → Run GameState B)
    → LeavesStack m
    → ((a : A) → LeavesStack (k a))
    → LeavesStack (m >>= k)
leaves-bind m k l h = record {
  stack_is = λ s. stack-continue s.rule_state_stack (m s) k (l.stack_is s) h;
}

leaves-pure : {A : Type 0} (a : A) → LeavesStack (pure a)
leaves-pure a = record { stack_is = λ s. refl }

leaves-modify :
    (f : GameState → GameState)
    → ((s : GameState) → (f s).rule_state_stack ≡ s.rule_state_stack)
    → LeavesStack (modify f)
leaves-modify f h = record { stack_is = h }

leaves-cast_map : (e : Expression) → LeavesStack (cast_map e)
unfolding cast_map
leaves-cast_map (exp_map m) = record { stack_is = λ s. refl }
leaves-cast_map (exp_list l) = record { stack_is = λ s. tt }
leaves-cast_map (exp_int i) = record { stack_is = λ s. tt }
leaves-cast_map (exp_bool b) = record { stack_is = λ s. tt }
leaves-cast_map (exp_string t) = record { stack_is = λ s. tt }

leaves-cast_list : (e : Expression) → LeavesStack (cast_list e)
unfolding cast_list
leaves-cast_list (exp_list l) = record { stack_is = λ s. refl }
leaves-cast_list (exp_map m) = record { stack_is = λ s. tt }
leaves-cast_list (exp_int i) = record { stack_is = λ s. tt }
leaves-cast_list (exp_bool b) = record { stack_is = λ s. tt }
leaves-cast_list (exp_string t) = record { stack_is = λ s. tt }

leaves-cast_string : (e : Expression) → LeavesStack (cast_string e)
unfolding cast_string
leaves-cast_string (exp_string t) = record { stack_is = λ s. refl }
leaves-cast_string (exp_map m) = record { stack_is = λ s. tt }
leaves-cast_string (exp_list l) = record { stack_is = λ s. tt }
leaves-cast_string (exp_int i) = record { stack_is = λ s. tt }
leaves-cast_string (exp_bool b) = record { stack_is = λ s. tt }

leaves-check_named : (o : Option Expression) → LeavesStack (check_named o)
leaves-check_named none = record { stack_is = λ s. tt }
leaves-check_named (some e) = record { stack_is = λ s. refl }

leaves-variable_at : (key : Text) (o : Option Expression) → LeavesStack (variable_at key o)
leaves-variable_at key none = record { stack_is = λ s. refl }
leaves-variable_at key (some e) = record { stack_is = λ s. refl }

leaves-send : (t : Text) (l : ExpList) → LeavesStack (send_to_users t l)
unfolding send_to_users enqueue_message
leaves-send t empty_list = leaves-pure tt
leaves-send t (element e l) = leaves-bind _ _ (leaves-cast_map e) (λ user.
    leaves-bind _ _ (leaves-check_named (find_key (codes "name") user)) (λ u.
      leaves-bind _ _ (leaves-modify (enqueue_message user t) (λ s. refl)) (λ v. leaves-send t l)))

leaves-message_users : (t key : Text) → LeavesStack (message_users t key)
unfolding message_users
leaves-message_users t key = record {
  stack_is = λ s.
      (leaves-bind _ _ (leaves-variable_at key (find_key key s.variables))
          (λ e. leaves-bind _ _ (leaves-cast_list e) (λ l. leaves-send t l))).stack_is
        s;
}

leaves-global_message : (t : Text) → LeavesStack (visit_global_message t)
unfolding visit_global_message enqueue_global_message
leaves-global_message t =
    leaves-bind _ _ (leaves-message_users _ (codes "players"))
      (λ u. leaves-message_users _ (codes "audience"))

leaves-replace_list :
    (f : ExpList → ExpList) (name : Text) (o : Option Expression)
    → LeavesStack (replace_list f name o)
leaves-replace_list f name none = leaves-pure tt
leaves-replace_list f name (some e) =
    leaves-bind _ _ (leaves-cast_list e) (λ l. leaves-modify _ (λ s. refl))

-- The kinds whose visitors are empty or, unlike those of add, for_each and timer, never set the flag
-- `finished`; discard, deal and the requests for input are not among them.
abbrev pub never_marked : Kind → Bool
never_marked (for_each l e) = false
never_marked (add to value) = false
never_marked (timer duration mode flag) = false
never_marked (discard from_list count) = false
never_marked (deal from_list to_list count) = false
never_marked (input_choice user prompt choices result timeout) = false
never_marked (input_text user prompt result timeout) = false
never_marked _ = true

leaves-accept :
    (lib : Library) (now a : ℕ) (k : Kind)
    → never_marked k ≡ true
    → LeavesStack (accept lib now a k)
unfolding accept visit_reverse visit_shuffle
leaves-accept lib now a (for_each l e) h = cc h
leaves-accept lib now a (add to value) h = cc h
leaves-accept lib now a (timer duration mode flag) h = cc h
leaves-accept lib now a (discard from_list count) h = cc h
leaves-accept lib now a (deal from_list to_list count) h = cc h
leaves-accept lib now a (input_choice user prompt choices result timeout) h = cc h
leaves-accept lib now a (input_text user prompt result timeout) h = cc h
leaves-accept lib now a (global_message t) h = leaves-global_message t
leaves-accept lib now a (reverse l) h = leaves-bind _ _ (leaves-cast_string l) (λ name. record {
  stack_is = λ s. (leaves-replace_list reverse_list name (find_key name s.variables)).stack_is s;
})
leaves-accept lib now a (shuffle l) h = leaves-bind _ _ (leaves-cast_string l) (λ name. record {
  stack_is = λ s. (leaves-replace_list lib.shuffled name (find_key name s.variables)).stack_is s;
})
leaves-accept lib now a (parallel_for l e) h = leaves-pure tt
leaves-accept lib now a in_parallel h = leaves-pure tt
leaves-accept lib now a (loop type) h = leaves-pure tt
leaves-accept lib now a (switch target values) h = leaves-pure tt
leaves-accept lib now a when h = leaves-pure tt
leaves-accept lib now a (extend target l) h = leaves-pure tt
leaves-accept lib now a (sort l key) h = leaves-pure tt
leaves-accept lib now a (input_vote users prompt choices result timeout) h = leaves-pure tt
leaves-accept lib now a (message users content) h = leaves-pure tt
leaves-accept lib now a (scores attribute ascending) h = leaves-pure tt

-- The loop did not return: it goes on, or something was thrown or undefined in it.
abbrev pub NeverReturned : Outcome GameState Progress → Type 0
NeverReturned (ok p s) = p ≡ running
NeverReturned (threw e s) = Unit {0}
NeverReturned undefined = Unit {0}

module _ (lib : Library) (a : ℕ) (k : Kind) (next nested : Rule) (rs : List RuleState) where
  goes_on :
      (o : Outcome GameState (Unit {0})) (rest : Run GameState Progress)
      → StackIs (make_rule_state (rule a k next nested) ∷ rs) o
      → ((s : GameState)
          → s.rule_state_stack ≡ make_rule_state (rule a k next nested) ∷ rs
          → NeverReturned (rest s))
      → NeverReturned (
          continue
            (continue o (λ u. after_visit (make_rule_state (rule a k next nested))))
            (λ again. go_on again rest))
  unfolding after_visit make_rule_state
  goes_on (ok u s) rest h c = c s h
  goes_on (threw e s) rest h c = tt
  goes_on undefined rest h c = tt

  -- While the top of the stack is a fresh state of a rule of such a kind, updateState does not return,
  -- however many rounds its loop makes.
  pub never_returns_lem :
      (readings : List ℕ) (s : GameState)
      → never_marked k ≡ true
      → s.rule_state_stack ≡ make_rule_state (rule a k next nested) ∷ rs
      → NeverReturned (update_state lib readings s)
  unfolding update_state visit_top make_rule_state
  never_returns_lem [] s h t = ap at_end t
  never_returns_lem (now ∷ readings) s h t =
      subst (λ qs. NeverReturned (round (visit_top lib now) qs (update_state lib readings) s))
        (sym t)
        (goes_on (accept lib now a k s) (update_state lib readings)
          (subst (λ qs. StackIs qs (accept lib now a k s)) t
            ((leaves-accept lib now a k h).stack_is s))
          (λ s' t'. never_returns_lem readings s' h t'))
