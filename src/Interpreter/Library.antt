-- ===== src/Interpreter/Library.antt =====
-- What the interpreter (module/game_manager/src/DSLInterpreter.cpp) takes from the libraries.
use social_gaming_platform.Prelude.{Option, Text}
use social_gaming_platform.Prelude.Int.{ℤ}
use social_gaming_platform.Spec.Expression.{Expression, ExpList}

-- boost::lexical_cast<int>, none where it throws; the expression that boost::variant makes of a string
-- literal, a bool or a text by its version; and std::shuffle with a fresh std::default_random_engine.
pub record Library : Type 0 where
  pub lexical_cast : Text → Option ℤ
  pub of_literal : Text → Expression
  pub shuffled : ExpList → ExpList
