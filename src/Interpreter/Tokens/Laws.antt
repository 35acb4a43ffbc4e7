-- ===== src/Interpreter/Tokens/Laws.antt =====
-- What the tokens of a name spell
-- (module/game_manager/src/DSLInterpreter.cpp).
use social_gaming_platform.Prelude.{
  ℕ, Bool, true, false, List, [], ◌∷◌, ◌++◌, Text, ◌==◌, ==_iff, all, append_assoc, ◌≡◌, ◌≢◌, refl,
  arith, ap, sym, ◌∙◌, inl, inr, Bool-cases,
}
use social_gaming_platform.Prelude.Int.{ℤ, pos, ◌+ℤ◌, +ℤ_assoc, eq_ℤ}
use social_gaming_platform.Interpreter.Tokens.Splits.{
  +ℤ_zero, zero_+ℤ, count-append, count-dot, both, count_none, eq_ℤ_lem, is_unsplit,
  tokenize-unsplit,
}
use social_gaming_platform.Interpreter.Tokens.{
  paren, count_unclosed_parenthesis, cons_first, get_lines, flush, tokens_from,
  tokenize_dot_notation,
}

-- Every text behind a dot.
abbrev pub behind_dots : List Text → Text
behind_dots [] = []
behind_dots (w ∷ ws) = 46 ∷ (w ++ behind_dots ws)

abbrev pub ends_in_dot : Text → Bool
ends_in_dot [] = false
ends_in_dot (c ∷ []) = c == 46
ends_in_dot (c ∷ d ∷ s) = ends_in_dot (d ∷ s)

dots-cons_first :
    (c : ℕ) (ls : List Text) (u : Text)
    → behind_dots ls ≡ 46 ∷ u
    → behind_dots (cons_first c ls) ≡ 46 ∷ (c ∷ u)
dots-cons_first c [] u h = cc
dots-cons_first c (w ∷ ws) u h = cc h

dots-get_lines :
    (c : ℕ) (s : Text)
    → ends_in_dot (c ∷ s) ≡ false
    → behind_dots (get_lines (c ∷ s)) ≡ 46 ∷ (c ∷ s)
unfolding get_lines
dots-get_lines c [] h = ground arith
dots-get_lines c (d ∷ s) h = elim (Bool-cases (c == 46)) [
  | inl e ↦ rw e (
      ap (λ t. 46 ∷ t) (dots-get_lines d s h)
      ∙ ap (λ n. 46 ∷ (n ∷ (d ∷ s))) (sym ((==_iff c 46).0 e)))
  | inr e ↦ rw e (dots-cons_first c (get_lines (d ∷ s)) (d ∷ s) (dots-get_lines d s h))
]

-- The count behind the last line.
abbrev final : List Text → ℤ → ℤ
final [] n = n
final (b ∷ ls) n = final ls (n +ℤ count_unclosed_parenthesis b)

count_lines : List Text → ℤ
count_lines [] = pos 0
count_lines (b ∷ ls) = count_unclosed_parenthesis b +ℤ count_lines ls

final_lem : (ls : List Text) (n : ℤ) → final ls n ≡ n +ℤ count_lines ls
unfolding count_lines
final_lem [] n = sym (+ℤ_zero n)
final_lem (b ∷ ls) n =
    final_lem ls (n +ℤ count_unclosed_parenthesis b)
    ∙ +ℤ_assoc n (count_unclosed_parenthesis b) (count_lines ls)

count_lines-cons_first :
    (c : ℕ) (ls : List Text) → count_lines (cons_first c ls) ≡ paren c +ℤ count_lines ls
unfolding count_lines count_unclosed_parenthesis
count_lines-cons_first c [] = +ℤ_assoc (paren c) (pos 0) (pos 0)
count_lines-cons_first c (w ∷ ws) =
    +ℤ_assoc (paren c) (count_unclosed_parenthesis w) (count_lines ws)

paren-dot : (c : ℕ) → (c == 46) ≡ true → paren c ≡ pos 0
unfolding paren
paren-dot c h = ground arith

count_lines-get_lines : (s : Text) → count_lines (get_lines s) ≡ count_unclosed_parenthesis s
unfolding get_lines count_unclosed_parenthesis count_lines
count_lines-get_lines [] = refl
count_lines-get_lines (c ∷ s) = elim (Bool-cases (c == 46)) [
  | inl e ↦ rw e (
      zero_+ℤ (count_lines (get_lines s))
      ∙ count_lines-get_lines s
      ∙ sym (zero_+ℤ (count_unclosed_parenthesis s))
      ∙ ap (λ n. n +ℤ count_unclosed_parenthesis s) (sym (paren-dot c e)))
  | inr e ↦
      rw e
        (count_lines-cons_first c (get_lines s) ∙ ap (λ n. paren c +ℤ n) (count_lines-get_lines s))
]

-- What the tokens of further lines spell, with a text that waits before them.
abbrev after_waiting : Text → List Text → Text
after_waiting waiting [] = []
after_waiting waiting (b ∷ ls) = 46 ∷ (waiting ++ (b ++ behind_dots ls))

regroup : (a b c : Text) → (a ++ (b ++ 46 ∷ [])) ++ c ≡ a ++ (b ++ (46 ∷ c))
regroup a b c = append_assoc a (b ++ 46 ∷ []) c ∙ ap (λ t. a ++ t) (append_assoc b (46 ∷ []) c)

after_nothing : (ls : List Text) → after_waiting [] ls ≡ behind_dots ls
after_nothing [] = refl
after_nothing (b ∷ ls) = refl

still_open :
    (waiting b : Text) (ls : List Text) (m : ℤ)
    → eq_ℤ m (pos 0) ≡ false
    → final ls m ≡ pos 0
    → after_waiting (waiting ++ (b ++ 46 ∷ [])) ls ≡ 46 ∷ (waiting ++ (b ++ behind_dots ls))
still_open waiting b [] m e f = ground (arith, e, f)
still_open waiting b (c ∷ ls) m e f = ap (λ t. 46 ∷ t) (regroup waiting b (c ++ behind_dots ls))

lines_left : (ls : List Text) (m : ℤ) → eq_ℤ m (pos 0) ≡ false → final ls m ≡ pos 0 → ls ≢ []
lines_left [] m e f h = ground (arith, e, f)
lines_left (b ∷ ls) m e f h = cc

-- Nothing waits at the end of the lines, so there is nothing to flush.
tokens_spell :
    (ls : List Text) (n : ℤ) (waiting : Text)
    → final ls n ≡ pos 0
    → (ls ≡ [] → waiting ≡ [])
    → behind_dots (tokens_from ls n waiting) ≡ after_waiting waiting ls
unfolding tokens_from
tokens_spell [] n waiting f w = ap (λ t. behind_dots (flush t)) (w refl)
tokens_spell (b ∷ ls) n waiting f w =
    elim (Bool-cases (eq_ℤ (n +ℤ count_unclosed_parenthesis b) (pos 0))) [
      | inl e ↦
          rw (e, tokens_from)
            (ap (λ t. 46 ∷ ((waiting ++ b) ++ t))
                (tokens_spell ls (n +ℤ count_unclosed_parenthesis b) [] f (λ h. refl)
                  ∙ after_nothing ls)
              ∙ ap (λ t. 46 ∷ t) (append_assoc waiting b (behind_dots ls)))
      | inr e ↦
          rw (e, tokens_from)
            (tokens_spell ls (n +ℤ count_unclosed_parenthesis b) (waiting ++ (b ++ 46 ∷ [])) f
                (λ h. absurd (lines_left ls (n +ℤ count_unclosed_parenthesis b) e f h))
              ∙ still_open waiting b ls (n +ℤ count_unclosed_parenthesis b) e f)
    ]

abbrev pub is_balanced : Text → Bool
is_balanced t = eq_ℤ (count_unclosed_parenthesis t) (pos 0)

tokens_balanced :
    (ls : List Text) (n : ℤ) (waiting : Text)
    → final ls n ≡ pos 0
    → (ls ≡ [] → waiting ≡ [])
    → n ≡ count_unclosed_parenthesis waiting
    → all is_balanced (tokens_from ls n waiting) ≡ true
unfolding tokens_from
tokens_balanced [] n waiting f w c = ap (λ t. all is_balanced (flush t)) (w refl)
tokens_balanced (b ∷ ls) n waiting f w c =
    let sum : n +ℤ count_unclosed_parenthesis b ≡ count_unclosed_parenthesis (waiting ++ b) =
      ap (λ k. k +ℤ count_unclosed_parenthesis b) c ∙ sym (count-append waiting b) in
    elim (Bool-cases (eq_ℤ (n +ℤ count_unclosed_parenthesis b) (pos 0))) [
      | inl e ↦
          rw (e, tokens_from)
            (both (ap (λ k. eq_ℤ k (pos 0)) (sym sum) ∙ e) (
              tokens_balanced ls (n +ℤ count_unclosed_parenthesis b) [] f (λ h. refl)
                (eq_ℤ_lem (n +ℤ count_unclosed_parenthesis b) (pos 0) e ∙ sym count_none)))
      | inr e ↦
          rw (e, tokens_from)
            (tokens_balanced ls (n +ℤ count_unclosed_parenthesis b) (waiting ++ (b ++ 46 ∷ [])) f
              (λ h. absurd (lines_left ls (n +ℤ count_unclosed_parenthesis b) e f h))
              (sum
                ∙ sym (count-dot (waiting ++ b))
                ∙ ap count_unclosed_parenthesis (append_assoc waiting b (46 ∷ []))))
    ]

-- A name with as many opening as closing parentheses, not ending in a dot, is spelled by its tokens, each
-- behind a dot; each token has as many opening as closing parentheses; and no token has a dot in it before
-- which as many are closed as opened, so that the name is split at every dot outside of parentheses.
pub tokenize_lem :
    (c : ℕ) (s : Text)
    → count_unclosed_parenthesis (c ∷ s) ≡ pos 0
    → ends_in_dot (c ∷ s) ≡ false
    → (behind_dots (tokenize_dot_notation (c ∷ s)) ≡ 46 ∷ (c ∷ s))
      × (all is_balanced (tokenize_dot_notation (c ∷ s)) ≡ true)
      × (all is_unsplit (tokenize_dot_notation (c ∷ s)) ≡ true)
unfolding tokenize_dot_notation
tokenize_lem c s closed dot =
    let ends : final (get_lines (c ∷ s)) (pos 0) ≡ pos 0 =
      final_lem (get_lines (c ∷ s)) (pos 0)
      ∙ zero_+ℤ (count_lines (get_lines (c ∷ s)))
      ∙ count_lines-get_lines (c ∷ s)
      ∙ closed in
    (
      tokens_spell (get_lines (c ∷ s)) (pos 0) [] ends (λ h. refl)
          ∙ after_nothing (get_lines (c ∷ s))
          ∙ dots-get_lines c s dot,
      tokens_balanced (get_lines (c ∷ s)) (pos 0) [] ends (λ h. refl) (sym count_none),
      tokenize-unsplit (c ∷ s),
    )
