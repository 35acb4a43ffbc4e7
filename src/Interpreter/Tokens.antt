-- ===== src/Interpreter/Tokens.antt =====
-- The texts of the game language (module/game_manager/src/DSLInterpreter.cpp): names with dots, their
-- attributes, and messages with braces.
pub mod Splits
pub mod Laws
pub mod Braces
use social_gaming_platform.Prelude.{
  ℕ, ◌+◌, Bool, true, false, ◌&&◌, ◌||◌, Option, none, some, List, [], ◌∷◌, ◌++◌, Text, codes, leb,
  ◌==◌, if◌then◌else◌, all,
}
use social_gaming_platform.Prelude.Int.{ℤ, pos, negsuc, ◌+ℤ◌, eq_ℤ}

-- countUnclosedParenthesis: 40 and 41 are the parentheses.
unfoldable pub paren : ℕ → ℤ
paren c = if c == 40 then pos 1 else if c == 41 then negsuc 0 else pos 0

unfoldable pub count_unclosed_parenthesis : Text → ℤ
unfolding paren ◌+ℤ◌
count_unclosed_parenthesis [] = pos 0
count_unclosed_parenthesis (c ∷ s) = paren c +ℤ count_unclosed_parenthesis s

abbrev pub cons_first : ℕ → List Text → List Text
cons_first c [] = (c ∷ []) ∷ []
cons_first c (w ∷ ws) = (c ∷ w) ∷ ws

-- The lines that std::getline reads up to each dot: a dot that ends the text begins no line.
unfoldable pub get_lines : Text → List Text
get_lines [] = []
get_lines (c ∷ s) = let rest = get_lines s in if c == 46 then [] ∷ rest else cons_first c rest

-- The loop of tokenizeDotNotation, with the text that waits and the count, and its last line.
abbrev pub flush : Text → List Text
flush [] = []
flush (c ∷ s) = (c ∷ s) ∷ []

unfoldable pub tokens_from : List Text → ℤ → Text → List Text
unfolding count_unclosed_parenthesis ◌+ℤ◌
tokens_from [] n waiting = flush waiting
tokens_from (buffer ∷ lines) n waiting =
    let m = n +ℤ count_unclosed_parenthesis buffer in
    elim (eq_ℤ m (pos 0)) [
      | true ↦ (waiting ++ buffer) ∷ tokens_from lines m []
      | false ↦ tokens_from lines m (waiting ++ (buffer ++ 46 ∷ []))
    ]

unfoldable pub tokenize_dot_notation : Text → List Text
unfolding get_lines tokens_from
tokenize_dot_notation s = tokens_from (get_lines s) (pos 0) []

abbrev pub starts_with : Text → Text → Bool
starts_with [] s = true
starts_with (c ∷ p) [] = false
starts_with (c ∷ p) (d ∷ s) = c == d && starts_with p s

-- `s.find(p) != npos`.
unfoldable pub contains : Text → Text → Bool
contains p [] = starts_with p []
contains p (c ∷ s) = let rest = contains p s in starts_with p (c ∷ s) || rest

-- isAttribute.
unfoldable pub is_attribute : Text → Bool
unfolding contains
is_attribute s =
    contains (codes "upfrom") s
    || (contains (codes "size") s
        || (contains (codes "elements") s
            || (contains (codes "contains") s || contains (codes "collect") s)))

-- The text before the first `c`, and the text behind it; none if there is no `c`.
unfoldable pub break_at : ℕ → Text → Option (Text × Text)
break_at c [] = none
break_at c (d ∷ s) =
    let rest = break_at c s in
    if d == c then some ([], s) else elim rest [ none ↦ none | some r ↦ some (d ∷ r.0, r.1) ]

-- InterpretVisitor::interpolateString, from the two searches on. Without a pair of braces the output
-- stays empty.
abbrev pub close_brace : Text → Option (Text × Text) → Text
close_brace before none = []
close_brace before (some (inner, after)) = before ++ (inner ++ after)

abbrev pub open_brace : Option (Text × Text) → Text
open_brace none = []
open_brace (some (before, rest)) = close_brace before (break_at 125 rest)

unfoldable pub interpolate_string : Text → Text
unfolding break_at
interpolate_string s = open_brace (break_at 123 s)

-- isAllDigits.
unfoldable pub is_all_digits : Text → Bool
is_all_digits s = all (λ c. leb 48 c && leb c 57) s
