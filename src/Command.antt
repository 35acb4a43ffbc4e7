-- ===== src/Command.antt =====
-- module/command: what a user types after a slash.
pub mod Parse
mod Tests
use social_gaming_platform.Prelude.{
  ℕ, ◌+◌, Bool, true, false, ◌&&◌, ◌||◌, List, [], ◌∷◌, Text, Option, none, some, leb, ◌==◌, drop,
  length, all, map, if◌then◌else◌,
}

-- std::isalnum and std::tolower in the "C" locale.
unfoldable pub is_alnum : ℕ → Bool
is_alnum c = leb 48 c && leb c 57 || (leb 65 c && leb c 90 || leb 97 c && leb c 122)

unfoldable pub to_lower : ℕ → ℕ
to_lower c = if leb 65 c && leb c 90 then c + 32 else c

-- The constructor of CommandName: `none` stands for the std::runtime_error that it throws.
unfoldable pub command_name : Text → Option Text
unfolding is_alnum to_lower
command_name name = if all is_alnum name then some (map to_lower name) else none

pub record Command : Type 0 where
  pub name : Text
  pub arguments : List Text
  pub raw_arguments : Text

-- What Command::parse comes to. std::out_of_range is no std::runtime_error, so it is not caught.
pub data Parsed : Type 0 where
  parsed : Command → Parsed
  nullopt : Parsed
  out_of_range : Parsed

abbrev pub cons_head : ℕ → List Text → List Text
cons_head c [] = (c ∷ []) ∷ []
cons_head c (w ∷ ws) = (c ∷ w) ∷ ws

-- boost::split at each space.
unfoldable pub split : Text → List Text
split [] = [] ∷ []
split (c ∷ s) = let rest = split s in if c == 32 then [] ∷ rest else cons_head c rest

-- The text after the first word and its space, if there are more words.
abbrev pub raw_of : Text → Text → List Text → Text
raw_of input first [] = []
raw_of input first (v ∷ vs) = drop (length first + 1) input

-- The rest of parse, given what the constructor of the name came to.
abbrev pub parse_named : Text → Text → List Text → Option Text → Parsed
parse_named input first args none = nullopt
parse_named input first args (some name) =
    parsed (record { name = name; arguments = args; raw_arguments = raw_of input first args })

-- What parse does with the words of its input: the first one loses its first character.
abbrev pub parse_words : Text → List Text → Parsed
parse_words input [] = out_of_range
parse_words input ([] ∷ args) = out_of_range
parse_words input ((c ∷ w) ∷ args) = parse_named input (c ∷ w) args (command_name w)

-- Command::parse.
unfoldable pub parse : Text → Parsed
unfolding command_name split
parse input = parse_words input (split input)

-- Command::is_command.
unfoldable pub is_command : Text → Bool
is_command [] = false
is_command (c ∷ s) = c == 47
