-- ===== src/Command/Tests.antt =====
-- Runs of the theorems about parsing (module/command/src/Command.cpp).
use social_gaming_platform.Prelude.{◌≡◌, refl, true, [], ◌∷◌, ◌++◌, codes, all}
use social_gaming_platform.Command.{Command, is_alnum, to_lower, command_name, split, parse, parsed}
use social_gaming_platform.Command.Parse.{command_of, parse_lem}

nick-alnum : all is_alnum (codes "Nick") ≡ true
unfolding is_alnum
nick-alnum = refl

parse_lem_example :
    (parse (47 ∷ (codes "Nick" ++ (32 ∷ codes "Big Al")))
      ≡ parsed (command_of (codes "Nick") (split (codes "Big Al")) (codes "Big Al")))
    × (parse (47 ∷ codes "Nick") ≡ parsed (command_of (codes "Nick") [] []))
parse_lem_example = parse_lem (codes "Nick") nick-alnum (codes "Big Al")

abbrev nick_al : Command
nick_al = record { name = codes "nick"; arguments = codes "Al" ∷ []; raw_arguments = codes "Al" }

parses : parse (codes "/Nick Al") ≡ parsed nick_al
unfolding parse split command_name is_alnum to_lower
parses = refl
