-- ===== src/Interpreter/Lists.antt =====
-- Comparisons, and the texts of list expressions such as players.elements.weapon
-- (module/game_manager/src/DSLInterpreter.cpp).
pub mod Filters
pub mod Taking
use social_gaming_platform.Prelude.{
  ℕ, zero, suc, ◌-◌, ◌^◌, Bool, true, false, not, ◌&&◌, ◌||◌, List, [], ◌∷◌, Text, codes, text_eq,
  length, take, drop, filter, ltb, ◌==◌, if◌then◌else◌,
}
use social_gaming_platform.Prelude.Int.{ltb_ℤ, eq_ℤ}
use social_gaming_platform.Run.{Run, threw, fault, pure, library_exception, ◌>>=◌, ◌>>◌}
use social_gaming_platform.Spec.Expression.{
  Expression, exp_map, exp_list, exp_int, exp_bool, exp_string, bad_cast, cast_int, cast_string,
}
use social_gaming_platform.Interpreter.Tokens.{get_lines, starts_with}

-- std::string: positions are size_t, and npos is the largest one.
abbrev size_mod : ℕ
size_mod = 2 ^ 64

abbrev pub npos : ℕ
npos = size_mod - 1

unfoldable pub find_from : ℕ → (Text → Bool) → Text → ℕ
find_from n p [] = if p [] then n else npos
find_from n p (c ∷ s) = let rest = find_from (suc n) p s in if p (c ∷ s) then n else rest

abbrev pub find_text : Text → Text → ℕ
find_text t s = find_from 0 (starts_with t) s

abbrev member : ℕ → Text → Bool
member c [] = false
member c (d ∷ s) = d == c || member c s

abbrev head_in : Text → Text → Bool
head_in cs [] = false
head_in cs (c ∷ s) = member c cs

abbrev pub find_first_of : Text → Text → ℕ
find_first_of cs s = find_from 0 (head_in cs) s

unfoldable pub last_from : ℕ → ℕ → Text → Text → ℕ
last_from found n cs [] = found
last_from found n cs (c ∷ s) = last_from (if member c cs then n else found) (suc n) cs s

abbrev pub find_last_of : Text → Text → ℕ
find_last_of cs s = last_from npos 0 cs s

module _ {W : Type 0} where
  abbrev pub out_of_range : {A : Type 0} → Run W A
  out_of_range w = threw (library_exception (codes "std::out_of_range")) w

  unfoldable pub substr : Text → ℕ → ℕ → Run W Text
  substr s pos n = if ltb (length s) pos then out_of_range else pure (take n (drop pos s))

  -- `tokens[i]`.
  unfoldable pub token_at : ℕ → List Text → Run W Text
  token_at i [] = fault
  token_at zero (t ∷ ts) = pure t
  token_at (suc i) (t ∷ ts) = token_at i ts

-- tokenizer, with the symbol "." that it is always called with.
abbrev is_filled : Text → Bool
is_filled [] = false
is_filled (c ∷ s) = true

unfoldable pub tokenizer : Text → List Text
unfolding get_lines
tokenizer s = filter is_filled (get_lines s)

-- The comparison of two values of one type: by whether they are equal, and whether the first is less.
abbrev pub text_ltb : Text → Text → Bool
text_ltb s [] = false
text_ltb [] (d ∷ t) = true
text_ltb (c ∷ s) (d ∷ t) = ltb c d || (c == d && text_ltb s t)

abbrev pub bool_eq : Bool → Bool → Bool
bool_eq true b = b
bool_eq false b = not b

unfoldable pub compare_by : Text → Bool → Bool → Bool
compare_by comp equal less =
    if text_eq comp (codes "==")
    then equal
    else if text_eq comp (codes "<")
    then less
    else if text_eq comp (codes "!=")
    then not equal
    else not less && not equal

module _ {W : Type 0} where
  abbrev pub equality_of_texts : Expression → Expression → Text → Run W Bool
  equality_of_texts e1 e2 comp = do
    a ← cast_string e1
    b ← cast_string e2
    pure (compare_by comp (text_eq a b) (text_ltb a b))

  abbrev pub cast_bool : Expression → Run W Bool
  cast_bool (exp_bool b) = pure b
  cast_bool (exp_map m) = bad_cast
  cast_bool (exp_list l) = bad_cast
  cast_bool (exp_int i) = bad_cast
  cast_bool (exp_string t) = bad_cast

  -- evaluateEquality.
  unfoldable pub evaluate_equality : Expression → Expression → Text → Run W Bool
  unfolding cast_int cast_string compare_by
  evaluate_equality (exp_int a) e2 comp w =
      (do b ← cast_int e2; pure (compare_by comp (eq_ℤ a b) (ltb_ℤ a b))) w
  evaluate_equality (exp_bool a) e2 comp w =
      (do b ← cast_bool e2; pure (compare_by comp (bool_eq a b) (not a && b))) w
  evaluate_equality (exp_map m) e2 comp w = equality_of_texts (exp_map m) e2 comp w
  evaluate_equality (exp_list l) e2 comp w = equality_of_texts (exp_list l) e2 comp w
  evaluate_equality (exp_string t) e2 comp w = equality_of_texts (exp_string t) e2 comp w
