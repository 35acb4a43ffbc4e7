-- ===== src/Interpreter/Instance.antt =====
-- GameInstance (module/game_manager/include/GameInstance.h): the loop that runs the rules.
pub mod Adds
pub mod Hosting
pub mod Announce
mod Tests
pub mod Each
pub mod Stuck
use social_gaming_platform.Prelude.{ℕ, Bool, true, false, List, [], ◌∷◌, Text, if◌then◌else◌}
use social_gaming_platform.Run.{Run, undefined, pure, modify, ◌>>=◌, ◌>>◌}
use social_gaming_platform.Spec.Rule.{Rule, null, rule}
use social_gaming_platform.Spec.State.{GameState, RuleState, make_rule_state}
use social_gaming_platform.Interpreter.Library.{Library}
use social_gaming_platform.Interpreter.Accept.{accept}

-- The members that point at parts of the game's state are left out: the methods run on that state.
pub record GameInstance : Type 0 where
  pub rule_stack : List Rule
  pub rule_ind : ℕ
  pub is_terminated : Bool
  pub player_name_to_id : List (Text × ℕ)
  pub spectator_name_to_id : List (Text × ℕ)

-- The constructor; it leaves the game's state alone.
unfoldable pub make_instance : Rule → GameInstance
make_instance first_rule = record {
  rule_stack = first_rule ∷ [];
  rule_ind = 0;
  is_terminated = false;
  player_name_to_id = [];
  spectator_name_to_id = [];
}

-- How updateState stands after some rounds of its loop: it returned since no rule is left, or since one
-- needs input, or it is still in the loop.
pub data Progress : Type 0 where
  finished waiting running : Progress

-- `(rule_state.rule)->accept(interpreter)`.
abbrev pub accept_rule : Library → ℕ → Rule → Run GameState (Unit {0})
accept_rule lib now null s = undefined
accept_rule lib now (rule a k next nested) s = accept lib now a k s

abbrev drop_first : List RuleState → List RuleState
drop_first [] = []
drop_first (r ∷ rs) = rs

unfoldable pub pop : Run GameState (Unit {0})
pop = modify (λ s. record s { rule_state_stack = drop_first s.rule_state_stack })

-- A push, unless the pointer is null.
unfoldable pub push_rule : Rule → Run GameState (Unit {0})
unfolding make_rule_state
push_rule null = pure tt
push_rule (rule a k next nested) = modify (λ s. record s {
  rule_state_stack = make_rule_state (rule a k next nested) ∷ s.rule_state_stack;
})

-- What follows the visit. The copy `rule_state` was taken before the visit and does not see its flags.
-- The result tells whether the loop goes on.
unfoldable pub after_visit : RuleState → Run GameState Bool
unfolding pop push_rule
after_visit rule_state =
    if rule_state.finished
    then (do pop; push_rule rule_state.next; pure true)
    else if rule_state.nested_rules_in_progress
    then (do push_rule rule_state.nested; pure true)
    else pure (if rule_state.needs_input then false else true)

-- One round of the loop on a stack with this top, at this reading of the clock.
unfoldable pub visit_top : Library → ℕ → RuleState → Run GameState Bool
unfolding accept after_visit
visit_top lib now rule_state = do accept_rule lib now rule_state.rule; after_visit rule_state

-- The loop, for as many rounds as there are readings of the clock.
abbrev pub go_on : Bool → Run GameState Progress → Run GameState Progress
go_on true rest = rest
go_on false rest = pure waiting

abbrev pub round :
    (RuleState → Run GameState Bool)
    → List RuleState
    → Run GameState Progress
    → Run GameState Progress
round visit [] rest = pure finished
round visit (r ∷ rs) rest = do again ← visit r; go_on again rest

abbrev pub at_end : List RuleState → Progress
at_end [] = finished
at_end (r ∷ rs) = running

-- GameInstance::updateState.
unfoldable pub update_state : Library → List ℕ → Run GameState Progress
unfolding visit_top
update_state lib [] s = pure (at_end s.rule_state_stack) s
update_state lib (now ∷ readings) s =
    round (visit_top lib now) s.rule_state_stack (update_state lib readings) s
