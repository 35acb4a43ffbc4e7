-- ===== src/Interpreter/Visit/Timer.antt =====
-- The visitor of timers (module/game_manager/src/DSLInterpreter.cpp).
use social_gaming_platform.Prelude.{
  ℕ, true, false, Option, none, some, List, [], ◌∷◌, ◌++◌, ◌==◌, if◌then◌else◌,
}
use social_gaming_platform.Run.{Run, fault, pure, gets, modify, ◌>>=◌, ◌>>◌}
use social_gaming_platform.Spec.Expression.{Expression, exp_bool, cast_int, cast_string}
use social_gaming_platform.Spec.Pointer.{store}
use social_gaming_platform.Spec.Rule.{TimerMode, TimerObject, is_time_out, exact, at_most, track}
use social_gaming_platform.Spec.State.{GameState}
use social_gaming_platform.Interpreter.Tokens.{tokenize_dot_notation}
use social_gaming_platform.Interpreter.Visit.{top, finish, set_in_progress, set_variables}

-- visitImpl(Timer&), for the timer at address `a` and the reading `now` of the clock.
abbrev pub find_timer : ℕ → List TimerObject → Option TimerObject
find_timer a [] = none
find_timer a (t ∷ ts) = if t.owner == a then some t else find_timer a ts

abbrev pub flag_of : Option Expression → Run GameState Expression
flag_of none = fault
flag_of (some e) = pure e

unfoldable pub start_timer : ℕ → ℕ → Expression → TimerMode → Run GameState (Unit {0})
unfolding cast_int
start_timer now a duration_exp mode = do
  set_in_progress true
  duration ← cast_int duration_exp
  modify (λ s. record s {
    timer_list =
        s.timer_list
        ++ record { started_at = now; duration = duration; owner = a; mode = mode } ∷ [];
  })

unfoldable pub set_flag : Option Expression → Run GameState (Unit {0})
unfolding cast_string tokenize_dot_notation store
set_flag flag = do
  flag_exp ← flag_of flag
  name ← cast_string flag_exp
  variables ← gets (λ s. s.variables)
  stored ← store (tokenize_dot_notation name) (exp_bool true) variables
  set_variables stored

abbrev pub timer_done : ℕ → Option Expression → TimerObject → TimerMode → Run GameState (Unit {0})
timer_done now flag t exact = if is_time_out now t then finish else pure tt
timer_done now flag t at_most = finish
timer_done now flag t track = set_flag flag

abbrev pub my_timer : ℕ → Option Expression → Option TimerObject → Run GameState (Unit {0})
my_timer now flag none = fault
my_timer now flag (some t) = timer_done now flag t t.mode

-- The branch for nested rules that have completed.
abbrev pub nested_done : ℕ → ℕ → Option Expression → Run GameState (Unit {0})
nested_done now a flag = do
  set_in_progress false
  found ← gets (λ s. find_timer a s.timer_list)
  my_timer now flag found

unfoldable pub visit_timer :
    ℕ → ℕ → Expression → TimerMode → Option Expression → Run GameState (Unit {0})
unfolding start_timer is_time_out set_flag
visit_timer now a duration mode flag = do
  rule_state ← top
  if rule_state.nested_rules_in_progress
      then nested_done now a flag
      else start_timer now a duration mode
