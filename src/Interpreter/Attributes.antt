-- ===== src/Interpreter/Attributes.antt =====
-- The attributes of names (module/game_manager/src/DSLInterpreter.cpp).
pub mod Laws
use social_gaming_platform.Prelude.{
  ℕ, zero, suc, ◌+◌, ◌-◌, ◌^◌, Bool, true, false, Option, none, some, Text, codes, text_eq,
  if◌then◌else◌,
}
use social_gaming_platform.Prelude.Int.{ℤ, pos, pos_part, neg_part, ◌+ℤ◌, eq_ℤ}
use social_gaming_platform.Run.{Run, threw, undefined, fault, pure, library_exception, ◌>>=◌}
use social_gaming_platform.Spec.Expression.{
  Expression, ExpList, exp_map, exp_list, exp_int, exp_bool, exp_string, empty_list, element,
  get_size, cast_string,
}
use social_gaming_platform.Interpreter.Library.{Library}
use social_gaming_platform.Interpreter.Tokens.{contains, break_at, is_all_digits}

abbrev before : Text → Option (Text × Text) → Text
before s none = s
before s (some (inner, after)) = inner

abbrev behind : Text → Option (Text × Text) → Text
behind s none = s
behind s (some (inner, after)) = after

-- insideParenthesis. Without a "(" the text is taken from its start, and with no ")" behind the "("
-- the first of the searches ends the text or runs past it: then it is taken to its end.
unfoldable pub inside_parenthesis : Text → Text
unfolding break_at
inside_parenthesis s =
    let start = behind s (break_at 40 s) in
    elim (break_at 41 (before s (break_at 40 s))) [
      | some closed_first ↦ elim (break_at 40 s) [ none ↦ closed_first.0 | some opened ↦ start ]
      | none ↦ before start (break_at 41 start)
    ]

-- applySizeAttribute. The handler of the failed cast returns nothing, which is undefined.
unfoldable pub apply_size_attribute : {W : Type 0} → Expression → Run W Expression
unfolding get_size
apply_size_attribute (exp_list l) w = pure (exp_int (pos (get_size l))) w
apply_size_attribute (exp_map m) w = undefined
apply_size_attribute (exp_int i) w = undefined
apply_size_attribute (exp_bool b) w = undefined
apply_size_attribute (exp_string t) w = undefined

-- The loop from `lower` on, for as many rounds.
unfoldable pub numbers_from : ℤ → ℕ → ExpList
unfolding ◌+ℤ◌
numbers_from lower zero = empty_list
numbers_from lower (suc n) = element (exp_int lower) (numbers_from (lower +ℤ pos 1) n)

-- The rounds of the loop: none unless lower <= upper.
unfoldable pub rounds : ℤ → ℤ → ℕ
rounds lower upper = (pos_part upper + neg_part lower + 1) - (pos_part lower + neg_part upper)

abbrev bad_lexical_cast : {W A : Type 0} → Run W A
bad_lexical_cast w = threw (library_exception (codes "boost::bad_lexical_cast")) w

module _ {W : Type 0} (lib : Library) where
  abbrev pub lexical : Option ℤ → Run W ℤ
  lexical none w = bad_lexical_cast w
  lexical (some i) w = pure i w

  -- The branch of applyUpFromAttribute for an int. At the largest int `i++` overflows.
  abbrev pub count_up : Text → ℤ → Run W Expression
  count_up attr upper = do
    lower ← lexical (lib.lexical_cast (inside_parenthesis attr))
    if eq_ℤ upper (pos (2 ^ 31 - 1))
        then fault
        else pure (exp_list (numbers_from lower (rounds lower upper)))

  -- applyUpFromAttribute.
  unfoldable pub apply_upfrom_attribute : Expression → Text → Run W Expression
  unfolding inside_parenthesis numbers_from rounds
  apply_upfrom_attribute (exp_int i) attr w = count_up attr i w
  apply_upfrom_attribute (exp_map m) attr w = pure (exp_list empty_list) w
  apply_upfrom_attribute (exp_list l) attr w = pure (exp_list empty_list) w
  apply_upfrom_attribute (exp_bool b) attr w = pure (exp_list empty_list) w
  apply_upfrom_attribute (exp_string t) attr w = pure (exp_list empty_list) w

-- The loops of applyContainsAttribute.
abbrev bad_get : {W A : Type 0} → Run W A
bad_get w = threw (library_exception (codes "boost::bad_get")) w

abbrev pub get_int : {W : Type 0} → Expression → Run W ℤ
get_int (exp_int i) w = pure i w
get_int (exp_map m) w = bad_get w
get_int (exp_list l) w = bad_get w
get_int (exp_bool b) w = bad_get w
get_int (exp_string t) w = bad_get w

unfoldable pub any_int : {W : Type 0} → ℤ → ExpList → Run W Bool
any_int i empty_list = pure false
any_int i (element e l) = do n ← get_int e; if eq_ℤ n i then pure true else any_int i l

unfoldable pub any_string : {W : Type 0} → Text → ExpList → Run W Bool
unfolding cast_string
any_string t empty_list = pure false
any_string t (element e l) = do s ← cast_string e; if text_eq s t then pure true else any_string t l

module _ {W : Type 0} (lib : Library) where
  -- The branch of applyContainsAttribute for a list.
  abbrev pub list_contains : ExpList → Text → Run W Bool
  list_contains l parameter =
      if is_all_digits parameter
      then (do i ← lexical lib (lib.lexical_cast parameter); any_int i l)
      else any_string parameter l

  -- applyContainsAttribute.
  unfoldable pub apply_contains_attribute : Expression → Text → Run W Expression
  unfolding inside_parenthesis any_int any_string is_all_digits
  apply_contains_attribute (exp_list l) attr w =
      (do found ← list_contains l (inside_parenthesis attr); pure (exp_bool found)) w
  apply_contains_attribute (exp_map m) attr w = pure (exp_bool false) w
  apply_contains_attribute (exp_int i) attr w = pure (exp_bool false) w
  apply_contains_attribute (exp_bool b) attr w = pure (exp_bool false) w
  apply_contains_attribute (exp_string t) attr w = pure (exp_bool false) w

  -- applyCollectAttribute.
  unfoldable pub apply_collect_attribute : Expression → Text → Run W Expression
  apply_collect_attribute e attr = pure (lib.of_literal (codes "fakeExpression"))

  -- applyAttribute.
  unfoldable pub apply_attribute : Expression → Text → Run W Expression
  unfolding contains apply_size_attribute apply_upfrom_attribute apply_contains_attribute
      apply_collect_attribute
  apply_attribute e attr =
      if contains (codes "size") attr
      then apply_size_attribute e
      else if contains (codes "upfrom") attr
      then apply_upfrom_attribute lib e attr
      else if contains (codes "contains") attr
      then apply_contains_attribute e attr
      else if contains (codes "collect") attr
      then apply_collect_attribute e attr
      else pure (exp_int (pos 0))
