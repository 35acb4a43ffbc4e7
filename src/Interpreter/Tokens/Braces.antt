-- ===== src/Interpreter/Tokens/Braces.antt =====
-- What is left of a message with braces (module/game_manager/src/DSLInterpreter.cpp).
use social_gaming_platform.Prelude.{
  ℕ, Bool, true, not, none, some, [], ◌∷◌, ◌++◌, Text, ◌==◌, ==_iff, all, ◌≡◌, refl, arith, ap, ◌∙◌,
}
use social_gaming_platform.Interpreter.Tokens.{
  break_at, close_brace, open_brace, interpolate_string,
}

abbrev pub lacks : ℕ → Text → Bool
lacks c s = all (λ d. not (d == c)) s

break_at_first : (c : ℕ) (s t : Text) → lacks c s ≡ true → break_at c (s ++ c ∷ t) ≡ some (s, t)
unfolding break_at
break_at_first c [] t h = ground (arith, ==_iff c c)
break_at_first c (d ∷ s) t h = ground (arith, break_at_first c s t)

break_at-none : (c : ℕ) (s : Text) → lacks c s ≡ true → break_at c s ≡ none
unfolding break_at
break_at-none c [] h = refl
break_at-none c (d ∷ s) h = ground (arith, break_at-none c s)

-- Interpolation only takes away the first pair of braces; and a message without an opening brace, or
-- without a closing one behind it, comes out empty.
pub interpolate_lem :
    (before inner after : Text)
    → lacks 123 before ≡ true
    → lacks 125 inner ≡ true
    → (interpolate_string (before ++ 123 ∷ (inner ++ 125 ∷ after)) ≡ before ++ (inner ++ after))
      × (interpolate_string before ≡ [])
      × (interpolate_string (before ++ 123 ∷ inner) ≡ [])
unfolding interpolate_string
interpolate_lem before inner after b i = (
  ap open_brace (break_at_first 123 before (inner ++ 125 ∷ after) b)
      ∙ ap (close_brace before) (break_at_first 125 inner after i),
  ap open_brace (break_at-none 123 before b),
  ap open_brace (break_at_first 123 before inner b)
      ∙ ap (close_brace before) (break_at-none 125 inner i),
)
