-- ===== src/Spec/Rule.antt =====
-- The rules of a game (module/game_spec/include/Rule.h) and its timers (module/game_spec/include/Timer.h).
use social_gaming_platform.Prelude.{ℕ, Bool, Option, Text}
use social_gaming_platform.Prelude.Int.{ℤ, ltb_ℤ, sub_ℕ}
use social_gaming_platform.Spec.Expression.{Expression, ExpList}

-- TimerMode.
pub data TimerMode : Type 0 where
  exact at_most track : TimerMode

-- LoopType.
pub data LoopType : Type 0 where
  until while : LoopType

-- The kinds of rules that are structs of their own, with their fields. The lists of nested rules of
-- Switch and When, which nothing reads, are left out.
pub data Kind : Type 0 where
  for_each : ExpList → Expression → Kind
  parallel_for : Expression → Expression → Kind
  in_parallel : Kind
  loop : LoopType → Kind
  discard : Expression → Expression → Kind
  deal : Expression → Expression → Expression → Kind
  switch : Expression → Expression → Kind
  when : Kind
  extend : Expression → Expression → Kind
  reverse : Expression → Kind
  shuffle : Expression → Kind
  sort : Expression → Option Expression → Kind
  add : Expression → Expression → Kind
  timer : Expression → TimerMode → Option Expression → Kind
  input_choice : Expression → Expression → Expression → Expression → Option Expression → Kind
  input_text : Expression → Expression → Expression → Option Expression → Kind
  input_vote : Expression → Expression → Expression → Expression → Option Expression → Kind
  message : Expression → Expression → Kind
  global_message : Text → Kind
  scores : Expression → Expression → Kind

-- A pointer to a rule: null, or a rule with its address, its kind, and the pointers `next` and `nested`.
pub data Rule : Type 0 where
  null : Rule
  rule : ℕ → Kind → Rule → Rule → Rule

-- TimerObject, its owner by the address.
pub record TimerObject : Type 0 where
  pub started_at : ℕ
  pub duration : ℤ
  pub owner : ℕ
  pub mode : TimerMode

-- TimerObject::isTimeOut, at the reading `now` of the clock.
unfoldable pub is_time_out : ℕ → TimerObject → Bool
is_time_out now t = ltb_ℤ t.duration (sub_ℕ now t.started_at)
