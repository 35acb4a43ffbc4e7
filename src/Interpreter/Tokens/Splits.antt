-- ===== src/Interpreter/Tokens/Splits.antt =====
-- Where tokenizeDotNotation splits a name (module/game_manager/src/DSLInterpreter.cpp).
use social_gaming_platform.Prelude.{
  ℕ, Bool, true, false, not, ◌&&◌, List, [], ◌∷◌, ◌++◌, Text, ◌==◌, if◌then◌else◌, all,
  append_assoc, ◌≡◌, refl, arith, ap, sym, ◌∙◌, inl, inr, Bool-cases,
}
use social_gaming_platform.Prelude.Int.{ℤ, pos, ◌+ℤ◌, +ℤ_assoc, eq_ℤ}
use social_gaming_platform.Interpreter.Tokens.{
  paren, count_unclosed_parenthesis, cons_first, get_lines, flush, tokens_from,
  tokenize_dot_notation,
}

pub +ℤ_zero : (a : ℤ) → a +ℤ pos 0 ≡ a
unfolding ◌+ℤ◌
+ℤ_zero a = ground arith

-- No dot of the text stands where as many parentheses are closed as opened, with `n` open before it.
abbrev pub no_free_dot : ℤ → Text → Bool
no_free_dot n [] = true
no_free_dot n (c ∷ s) =
    (if c == 46 then not (eq_ℤ n (pos 0)) else true) && no_free_dot (n +ℤ paren c) s

has_no_dot : Text → Bool
has_no_dot [] = true
has_no_dot (c ∷ s) = not (c == 46) && has_no_dot s

no_free_dot-append :
    (n : ℤ) (s t : Text)
    → no_free_dot n s ≡ true
    → no_free_dot (n +ℤ count_unclosed_parenthesis s) t ≡ true
    → no_free_dot n (s ++ t) ≡ true
unfolding count_unclosed_parenthesis
no_free_dot-append n [] t h k = ap (λ m. no_free_dot m t) (sym (+ℤ_zero n)) ∙ k
no_free_dot-append n (c ∷ s) t h k = ground (
  arith,
  no_free_dot-append (n +ℤ paren c) s t,
  ap (λ m. no_free_dot m t) (+ℤ_assoc n (paren c) (count_unclosed_parenthesis s)),
)

no_dot-no_free : (n : ℤ) (s : Text) → has_no_dot s ≡ true → no_free_dot n s ≡ true
unfolding has_no_dot
no_dot-no_free n [] h = refl
no_dot-no_free n (c ∷ s) h = ground (arith, no_dot-no_free (n +ℤ paren c) s)

cons_first-no_dot :
    (c : ℕ) (ls : List Text)
    → (c == 46) ≡ false
    → all has_no_dot ls ≡ true
    → all has_no_dot (cons_first c ls) ≡ true
unfolding has_no_dot
cons_first-no_dot c [] e h = ground (arith, e)
cons_first-no_dot c (w ∷ ws) e h = ground (arith, e, h)

get_lines-no_dot : (s : Text) → all has_no_dot (get_lines s) ≡ true
unfolding get_lines has_no_dot
get_lines-no_dot [] = refl
get_lines-no_dot (c ∷ s) = elim (Bool-cases (c == 46)) [
  | inl e ↦ rw e (get_lines-no_dot s)
  | inr e ↦ rw e (cons_first-no_dot c (get_lines s) e (get_lines-no_dot s))
]

-- A token, read from its start.
abbrev pub is_unsplit : Text → Bool
is_unsplit t = no_free_dot (pos 0) t

flush-unsplit : (t : Text) → is_unsplit t ≡ true → all is_unsplit (flush t) ≡ true
flush-unsplit [] h = refl
flush-unsplit (c ∷ s) h = ground (arith, h)

pub zero_+ℤ : (a : ℤ) → pos 0 +ℤ a ≡ a
unfolding ◌+ℤ◌
zero_+ℤ a = ground arith

pub count-append :
    (s t : Text)
    → count_unclosed_parenthesis (s ++ t)
      ≡ count_unclosed_parenthesis s +ℤ count_unclosed_parenthesis t
unfolding count_unclosed_parenthesis
count-append [] t = sym (zero_+ℤ (count_unclosed_parenthesis t))
count-append (c ∷ s) t =
    ap (λ n. paren c +ℤ n) (count-append s t)
    ∙ sym (+ℤ_assoc (paren c) (count_unclosed_parenthesis s) (count_unclosed_parenthesis t))

pub count-dot :
    (s : Text) → count_unclosed_parenthesis (s ++ 46 ∷ []) ≡ count_unclosed_parenthesis s
unfolding count_unclosed_parenthesis paren
count-dot s = count-append s (46 ∷ []) ∙ +ℤ_zero (count_unclosed_parenthesis s)

-- A dot behind an open parenthesis.
closed_dot : (m : ℤ) → eq_ℤ m (pos 0) ≡ false → no_free_dot m (46 ∷ []) ≡ true
closed_dot m e = ground (arith, e)

pub both : {a b : Bool} → a ≡ true → b ≡ true → (a && b) ≡ true
both {a} {b} p q = ground (arith, p, q)

pub count_none : count_unclosed_parenthesis [] ≡ pos 0
unfolding count_unclosed_parenthesis
count_none = refl

pub eq_ℤ_lem : (a b : ℤ) → eq_ℤ a b ≡ true → a ≡ b
eq_ℤ_lem a b h = ground arith

tokens-unsplit :
    (ls : List Text) (n : ℤ) (waiting : Text)
    → all has_no_dot ls ≡ true
    → is_unsplit waiting ≡ true
    → n ≡ count_unclosed_parenthesis waiting
    → all is_unsplit (tokens_from ls n waiting) ≡ true
unfolding tokens_from has_no_dot
tokens-unsplit [] n waiting d h c = flush-unsplit waiting h
tokens-unsplit (b ∷ ls) n waiting d h c =
    let m = n +ℤ count_unclosed_parenthesis b in
    let plain : has_no_dot b ≡ true = ground (arith, d) in
    let plains : all has_no_dot ls ≡ true = ground (arith, d) in
    let joined : is_unsplit (waiting ++ b) ≡ true =
      no_free_dot-append (pos 0) waiting b h
        (no_dot-no_free (pos 0 +ℤ count_unclosed_parenthesis waiting) b plain) in
    let sum : m ≡ count_unclosed_parenthesis (waiting ++ b) =
      ap (λ k. k +ℤ count_unclosed_parenthesis b) c ∙ sym (count-append waiting b) in
    elim (Bool-cases (eq_ℤ m (pos 0))) [
      | inl e ↦
          rw (e, tokens_from)
            (both joined
              (tokens-unsplit ls m [] plains refl (eq_ℤ_lem m (pos 0) e ∙ sym count_none)))
      | inr e ↦
          let regroup : (waiting ++ b) ++ 46 ∷ [] ≡ waiting ++ (b ++ 46 ∷ []) =
            append_assoc waiting b (46 ∷ []) in
          let behind : pos 0 +ℤ count_unclosed_parenthesis (waiting ++ b) ≡ m =
            zero_+ℤ (count_unclosed_parenthesis (waiting ++ b)) ∙ sym sum in
          rw (e, tokens_from)
            (tokens-unsplit ls m (waiting ++ (b ++ 46 ∷ [])) plains
              (ap is_unsplit (sym regroup)
                ∙ no_free_dot-append (pos 0) (waiting ++ b) (46 ∷ []) joined
                    (ap (λ k. no_free_dot k (46 ∷ [])) behind ∙ closed_dot m e))
              (sum ∙ sym (count-dot (waiting ++ b)) ∙ ap count_unclosed_parenthesis regroup))
    ]

-- A name is split at every dot outside of parentheses: none is left in a token.
pub tokenize-unsplit : (s : Text) → all is_unsplit (tokenize_dot_notation s) ≡ true
unfolding tokenize_dot_notation
tokenize-unsplit s =
    tokens-unsplit (get_lines s) (pos 0) [] (get_lines-no_dot s) refl (sym count_none)
