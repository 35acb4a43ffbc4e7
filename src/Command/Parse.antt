-- ===== src/Command/Parse.antt =====
-- What Command::parse makes of a message (module/command/src/Command.cpp), and the map of commands
-- (module/command/include/CommandMap.hpp).
use social_gaming_platform.Prelude.{
  ℕ, zero, suc, ◌+◌, ◌≡◌, refl, Bool, true, false, ◌&&◌, Option, none, some, List, [], ◌∷◌, ◌++◌,
  map, Text, arith, ap, ◌∙◌, sym, length, drop, all, ◌==◌, if◌then◌else◌,
}
use mathlib.Core.Path.{subst}
use social_gaming_platform.Command.{
  is_alnum, to_lower, command_name, cons_head, split, parse, raw_of, parse_named, parse_words,
  Command, Parsed, parsed, nullopt, out_of_range,
}

-- Words with a space between them.
abbrev pub join : List Text → Text
join [] = []
join (w ∷ []) = w
join (w ∷ v ∷ ws) = w ++ (32 ∷ join (v ∷ ws))

join-cons_head : (c : ℕ) (ws : List Text) → join (cons_head c ws) ≡ c ∷ join ws
join-cons_head c [] = refl
join-cons_head c (w ∷ []) = refl
join-cons_head c (w ∷ v ∷ ws) = refl

pub join-space : (w : Text) (ws : List Text) → join ([] ∷ (w ∷ ws)) ≡ 32 ∷ join (w ∷ ws)
join-space w ws = refl

split-cons : (s : Text) → (w : Text) × (ws : List Text) × (split s ≡ w ∷ ws)
unfolding split
split-cons [] = ([], [], refl)
split-cons (c ∷ s) = by_test (c == 32) (split-cons s)
  where
    by_test :
        (b : Bool)
        → ((w : Text) × (ws : List Text) × (split s ≡ w ∷ ws))
        → (w : Text) × (ws : List Text) × ((if b then [] ∷ split s else cons_head c (split s))
            ≡ w ∷ ws)
    by_test true h = ([], split s, refl)
    by_test false (w, ws, e) = (c ∷ w, ws, ap (cons_head c) e)

-- Splitting a text at its spaces loses nothing: the words with spaces between them are the text.
pub join-split : (s : Text) → join (split s) ≡ s
unfolding split
join-split [] = refl
join-split (c ∷ s) = ground (arith, split-cons s, join-split s, join-cons_head c (split s))

alnum_no_space : (c : ℕ) → is_alnum c ≡ true → (c == 32) ≡ false
unfolding is_alnum
alnum_no_space c h = ground arith

-- A word without spaces, before a space, is split off whole.
split-word : (w rest : Text) → all is_alnum w ≡ true → split (w ++ (32 ∷ rest)) ≡ w ∷ split rest
unfolding split
split-word [] rest h = refl
split-word (c ∷ w) rest h = ground (arith, split-word w rest, alnum_no_space c)

split-last : (w : Text) → all is_alnum w ≡ true → split w ≡ w ∷ []
unfolding split
split-last [] h = refl
split-last (c ∷ w) h = ground (arith, split-last w, alnum_no_space c)

drop-length : (n : ℕ) (w rest : Text) → n ≡ length w + 1 → drop n (w ++ (32 ∷ rest)) ≡ rest
drop-length zero w rest e = absurd (omega arith)
drop-length (suc n) [] rest e = ground arith
drop-length (suc n) (c ∷ w) rest e = drop-length n w rest (omega arith)

drop-prefix : (w rest : Text) → drop (length w + 1) (w ++ (32 ∷ rest)) ≡ rest
drop-prefix w rest = drop-length (length w + 1) w rest refl

-- The command that a name and its arguments make.
abbrev pub command_of : Text → List Text → Text → Command
command_of name args raw = record {
  name = map to_lower name;
  arguments = args;
  raw_arguments = raw;
}

module _ (name : Text) (h : all is_alnum name ≡ true) where
  named : command_name name ≡ some (map to_lower name)
  unfolding command_name
  named = rw h refl

  parse_words_bare : parse_words (47 ∷ name) ((47 ∷ name) ∷ []) ≡ parsed (command_of name [] [])
  parse_words_bare = ap (parse_named (47 ∷ name) (47 ∷ name) []) named

  parse_words_more :
      (rest v : Text) (vs : List Text)
      → parse_words (47 ∷ (name ++ (32 ∷ rest))) ((47 ∷ name) ∷ (v ∷ vs))
        ≡ parsed (command_of name (v ∷ vs) rest)
  parse_words_more rest v vs =
      ap (parse_named (47 ∷ (name ++ (32 ∷ rest))) (47 ∷ name) (v ∷ vs)) named
      ∙ ap (λ raw. parsed (command_of name (v ∷ vs) raw)) (drop-prefix (47 ∷ name) rest)

  -- A slash and a name of letters and digits, with a space and any text after it or without, parse to
  -- the name in lower case, the words of the text and the text itself.
  pub parse_lem :
      (rest : Text)
      → (parse (47 ∷ (name ++ (32 ∷ rest))) ≡ parsed (command_of name (split rest) rest))
        × (parse (47 ∷ name) ≡ parsed (command_of name [] []))
  unfolding parse split
  parse_lem rest = (
    ap (parse_words (47 ∷ (name ++ (32 ∷ rest)))) (ap (cons_head 47) (split-word name rest h))
        ∙ with_words (split rest) (split-cons rest),
    ap (parse_words (47 ∷ name)) (ap (cons_head 47) (split-last name h)) ∙ parse_words_bare,
  )
    where
      with_words :
          (ws : List Text)
          → ((v : Text) × (vs : List Text) × (ws ≡ v ∷ vs))
          → parse_words (47 ∷ (name ++ (32 ∷ rest))) ((47 ∷ name) ∷ ws)
            ≡ parsed (command_of name ws rest)
      with_words [] (v, vs, e) = cc
      with_words (v ∷ vs) e = parse_words_more rest v vs

-- A character of a command's name.
abbrev pub is_name_char : ℕ → Bool
is_name_char c = is_alnum c && to_lower c == c

name_chars : (name : Text) → all is_alnum name ≡ true → all is_name_char (map to_lower name) ≡ true
unfolding is_alnum to_lower
name_chars [] h = refl
name_chars (c ∷ s) h = ground (arith, name_chars s)

command_name_sound : (name n : Text) → command_name name ≡ some n → all is_name_char n ≡ true
unfolding command_name
command_name_sound name n e = ground (arith, name_chars name)

raw_of-join :
    (input first : Text) (args : List Text)
    → join (first ∷ args) ≡ input
    → raw_of input first args ≡ join args
raw_of-join input first [] j = refl
raw_of-join input first (v ∷ vs) j =
    ap (drop (length first + 1)) (sym j) ∙ drop-prefix first (join (v ∷ vs))

abbrev the_command : Parsed → Command → Command
the_command (parsed d) other = d
the_command nullopt other = other
the_command out_of_range other = other

parsed_inj : {a b : Command} → parsed a ≡ parsed b → a ≡ b
parsed_inj {a} {b} e = ap (λ p. the_command p a) e

abbrev Sound : Command → Type 0
Sound d = (d.raw_arguments ≡ join d.arguments) × (all is_name_char d.name ≡ true)

parse_named-Sound :
    (input first : Text) (args : List Text) (o : Option Text) (d : Command)
    → join (first ∷ args) ≡ input
    → ((n : Text) → o ≡ some n → all is_name_char n ≡ true)
    → parse_named input first args o ≡ parsed d
    → Sound d
parse_named-Sound input first args none d j h e = cc
parse_named-Sound input first args (some n) d j h e =
    subst Sound (parsed_inj e) (raw_of-join input first args j, h n refl)

parse_words-Sound :
    (input : Text) (ws : List Text) (d : Command)
    → join ws ≡ input
    → parse_words input ws ≡ parsed d
    → Sound d
parse_words-Sound input [] d j e = cc
parse_words-Sound input ([] ∷ args) d j e = cc
parse_words-Sound input ((c ∷ w) ∷ args) d j e =
    parse_named-Sound input (c ∷ w) args (command_name w) d j (command_name_sound w) e

-- Whatever parses, its raw arguments are its arguments with a space between them, and its name is of
-- lower-case letters and digits.
pub parse_sound :
    (input : Text) (d : Command)
    → parse input ≡ parsed d
    → (d.raw_arguments ≡ join d.arguments) × (all is_name_char d.name ≡ true)
unfolding parse
parse_sound input d e = parse_words-Sound input (split input) d (join-split input) e
