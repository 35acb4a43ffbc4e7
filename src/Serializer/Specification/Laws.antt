-- ===== src/Serializer/Specification/Laws.antt =====
-- What parseGameSpecification returns, and of which values.
use mathlib.Core.Path.{subst}
use social_gaming_platform.Prelude.{Bool, false, ◌≡◌, inl, refl, sym, ap, ◌∙◌, true, codes}
use social_gaming_platform.Run.{ok, continue}
use social_gaming_platform.Serializer.Json.{JsonLibrary, IsDocumented}
use social_gaming_platform.Serializer.Validation.{is_valid_game_spec}
use social_gaming_platform.Serializer.Validation.Shape.{Member, IsGameSpec}
use social_gaming_platform.Serializer.Validation.Decision.{is_valid_game_spec_lem}
use social_gaming_platform.Serializer.Expressions.Laws.{Ends, Ends-bind}
use social_gaming_platform.Serializer.Specification.{
  Specification, parse_config, parse_game_state, parse_valid, parse_game_specification,
}
use social_gaming_platform.Serializer.Specification.Describes.{
  Describes, Unreadable, in_section, NoObject,
}
use social_gaming_platform.Serializer.Specification.Parts.{
  Ends-run, parse_config_lem, parse_game_state_lem,
}

module _ {J : Type 0} (lib : JsonLibrary J) (doc : IsDocumented lib) where
  -- Of a valid specification whose setup has no custom question, parseGameSpecification throws nothing. It
  -- returns the specification that the value describes, without rules, where an array in the setup, or a
  -- value of a type that the serializer does not name, counts as 0; or it is undefined, because a section
  -- has a value of such a type in it.
  pub parse_game_specification_lem :
      (j c v : J)
      → IsGameSpec lib j
      → Member lib (codes "configuration") j c
      → Member lib (codes "setup") c v
      → NoObject lib (lib.items v)
      → Ends (parse_game_specification lib j) (Describes lib j) (Unreadable lib j)
  unfolding parse_game_specification parse_valid
  parse_game_specification_lem j c v s e m' plain =
      let same : c ≡ s.config = cc (sym e ∙ s.config_member) in
      let m = subst (λ x. Member lib (codes "setup") x v) same m' in
      let (b, run, (sound, complete)) = is_valid_game_spec_lem lib doc j in
      let valid : b ≡ true = complete s in
      Ends-run (is_valid_game_spec lib j) true _ (λ w. run w ∙ ap (λ c. ok c w) valid)
        (Ends-run _ s.config _
          (doc.index_lem (codes "configuration") j s.config s.top.is_object s.config_member)
          (Ends-bind (parse_config lib s.config) _
            (parse_config_lem lib doc s.config s.player_count v s.inner s.count_member s.counts m
              plain)
            (λ bad. absurd bad)
            λ conf d.
              Ends-bind (parse_game_state lib j) _ (parse_game_state_lem lib doc j s.top)
                (λ bad. let (k, (x, e, u)) = bad in in_section k e u)
                λ g d'. inl (
                  _,
                  record {
                    config = s.config;
                    config_member = s.config_member;
                    configuration = d;
                    game_state = d';
                    no_rules = refl;
                  },
                  λ w. refl,
                )))

  invalid_throws :
      (b : Bool) (j : J) (w : Unit {0}) {spec : Specification} {w' : Unit {0}}
      → parse_valid lib b j w ≡ ok spec w'
      → b ≡ true
  unfolding parse_valid
  invalid_throws true j w h = refl
  invalid_throws false j w h = cc h

  -- What parseGameSpecification returns it has validated: it comes of a value of the shape that the tables
  -- ask for.
  pub parse_game_specification_sound :
      (j : J) (w : Unit {0}) {spec : Specification} {w' : Unit {0}}
      → parse_game_specification lib j w ≡ ok spec w'
      → IsGameSpec lib j
  unfolding parse_game_specification
  parse_game_specification_sound j w h =
      let (b, run, (sound, complete)) = is_valid_game_spec_lem lib doc j in
      sound
        (invalid_throws b j w (sym (ap (λ o. continue o (λ v. parse_valid lib v j)) (run w)) ∙ h))
