-- ===== src/Spec/State.antt =====
-- GameState (module/game_spec/include/GameState.h).
use social_gaming_platform.Prelude.{
  ℕ, Bool, false, Option, none, some, List, [], ◌∷◌, ◌++◌, Text, codes,
}
use social_gaming_platform.Prelude.Int.{ℤ}
use social_gaming_platform.Run.{Run, ok, undefined, pure, modify, ◌>>=◌, ◌>>◌}
use social_gaming_platform.Spec.Expression.{
  Expression, ExpMap, ExpList, exp_map, empty_map, empty_list, element, find_key, assign_key,
  cast_list, cast_map,
}
use social_gaming_platform.Spec.Rule.{Rule, null, rule, TimerObject}

-- The pointers of RuleState are to parts of the rule. `&(*rule->next)` of a null `next` counts as null.
pub record RuleState : Type 0 where
  pub rule : Rule
  pub next : Rule
  pub nested : Rule
  pub finished : Bool
  pub needs_input : Bool
  pub nested_rules_in_progress : Bool
  pub elem_list_index : ℕ

abbrev pub next_of : Rule → Rule
next_of null = null
next_of (rule a k n c) = n

abbrev pub nested_of : Rule → Rule
nested_of null = null
nested_of (rule a k n c) = c

-- RuleState::RuleState; its callers never pass a null pointer.
unfoldable pub make_rule_state : Rule → RuleState
make_rule_state r = record {
  rule = r;
  next = next_of r;
  nested = nested_of r;
  finished = false;
  needs_input = false;
  nested_rules_in_progress = false;
  elem_list_index = 0;
}

pub record GameMessage : Type 0 where
  pub target_user : ExpMap
  pub content : Text

-- InputType.
pub data InputType : Type 0 where
  choice text vote : InputType

-- The environments that a pointer to an expression can lead into; a context counts from the back.
pub data Scope : Type 0 where
  local_scope : ℕ → Scope
  variables_scope constants_scope : Scope

-- `result_ptr` is a path into one of the environments.
pub record InputRequest : Type 0 where
  pub kind : InputType
  pub target_user : ExpMap
  pub prompt : Text
  pub choices : List Text
  pub result_ptr : Scope × List Text
  pub timeout : Option ℤ

-- The lists `context` and `rule_state_stack` have their back and their top first.
pub record GameState : Type 0 where
  pub constants : ExpMap
  pub variables : ExpMap
  pub per_player : ExpMap
  pub per_audience : ExpMap
  pub context : List ExpMap
  pub rule_state_stack : List RuleState
  pub timer_list : List TimerObject
  pub input_requests : List InputRequest
  pub message_queue : List GameMessage

-- GameState::enterScope and exitScope; to pop an empty vector is undefined.
unfoldable pub enter_scope : GameState → GameState
enter_scope s = record s { context = empty_map ∷ s.context }

abbrev pub pop_scope : List ExpMap → Run GameState (Unit {0})
pop_scope [] s = undefined
pop_scope (m ∷ ms) s = ok tt (record s { context = ms })

unfoldable pub exit_scope : Run GameState (Unit {0})
exit_scope s = pop_scope s.context s

unfoldable pub enqueue_input_request : InputRequest → GameState → GameState
enqueue_input_request r s = record s { input_requests = s.input_requests ++ r ∷ [] }

unfoldable pub enqueue_message : ExpMap → Text → GameState → GameState
enqueue_message user t s = record s {
  message_queue = s.message_queue ++ record { target_user = user; content = t } ∷ [];
}

-- `assert(userData.map.count("name") > 0)`.
abbrev pub check_named : Option Expression → Run GameState (Unit {0})
check_named none s = undefined
check_named (some e) s = ok tt s

-- The inner loop of enqueueGlobalMessage.
unfoldable pub send_to_users : Text → ExpList → Run GameState (Unit {0})
unfolding cast_map find_key enqueue_message
send_to_users t empty_list = pure tt
send_to_users t (element e l) = do
  user ← cast_map e
  check_named (find_key (codes "name") user)
  modify (enqueue_message user t)
  send_to_users t l

-- `variables.map[key]`: a key that is not there gets the first alternative of the variant, an empty map.
abbrev pub variable_at : Text → Option Expression → Run GameState Expression
variable_at key (some e) s = ok e s
variable_at key none s =
    ok (exp_map empty_map) (record s { variables = assign_key key (exp_map empty_map) s.variables })

-- One round of the outer loop.
unfoldable pub message_users : Text → Text → Run GameState (Unit {0})
unfolding send_to_users cast_list find_key assign_key
message_users t key s =
    (do e ← variable_at key (find_key key s.variables); users ← cast_list e; send_to_users t users)
      s

-- GameState::enqueueGlobalMessage.
unfoldable pub enqueue_global_message : Text → Run GameState (Unit {0})
unfolding message_users
enqueue_global_message t = do message_users t (codes "players"); message_users t (codes "audience")
