-- ===== src/Serializer/Specification/Parts.antt =====
-- What the parts of a specification are parsed to.
use mathlib.Core.Path.{subst}
use social_gaming_platform.Prelude.{
  ◌≡◌, ◌≢◌, inl, inr, refl, sym, ap, ◌∙◌, true, false, none, some, List, [], ◌∷◌, ◌++◌, Text, codes,
  text_eq,
}
use social_gaming_platform.Prelude.Int.{pos}
use social_gaming_platform.Run.{continue, ◌>>=◌}
use social_gaming_platform.Serializer.Keys.{
  lookup, keys, mem, Unique, mem-apart, text_eq_refl, assign, lookup-assign, assign-fresh,
}
use social_gaming_platform.Serializer.Json.{
  ValueType, object, array, string, boolean, number_integer, unnamed, Parse, JsonLibrary,
  IsDocumented, Returns,
}
use social_gaming_platform.Serializer.Tables.{
  Table, fields, fields_configuration, fields_player_count,
}
use social_gaming_platform.Serializer.Validation.Shape.{typed, Member, HasShape}
use social_gaming_platform.Serializer.Validation.Fits.{HasShape-has}
use social_gaming_platform.Serializer.Expressions.{parse_environment}
use social_gaming_platform.Serializer.Expressions.Denotes.{a_string, an_int, a_bool, SomeUnnamed}
use social_gaming_platform.Serializer.Expressions.Laws.{
  Ends, Ends-bind, Ends-mono, parse_environment_lem,
}
use social_gaming_platform.Serializer.Specification.{
  SetupValue, text_value, int_value, bool_value, Setup, setup_value_of, parse_setup_value,
  parse_settings, parse_setup, parse_config, parse_section, parse_game_state,
}
use social_gaming_platform.Serializer.Specification.Describes.{
  Setting, a_text, a_number, a_flag, Settings, no_setting, one_setting, DescribesConfig, Section,
  DescribesState, zero_for_array, zero_for_unnamed, NoObject,
}

-- A call that returns, before the rest of a `do` block.
pub Ends-run :
    {A B : Type 0} (m : Parse A) (a : A) (k : A → Parse B) {Q : B → Type 0} {V : Type 0}
    → Returns m a
    → Ends (k a) Q V
    → Ends (m >>= k) Q V
Ends-run m a k run (inl (b, q, run')) = inl (b, q, λ w. ap (λ o. continue o k) (run w) ∙ run' w)
Ends-run m a k run (inr (v, bad)) = inr (v, λ w. ap (λ o. continue o k) (run w) ∙ bad w)

-- None of these keys is set yet.
abbrev Fresh : List Text → Setup → Type 0
Fresh ks s = (k : Text) → mem k ks ≡ true → lookup k s ≡ none

Fresh-assign :
    (k : Text) (x : SetupValue) (s : Setup) (ks : List Text)
    → mem k ks ≡ false
    → Fresh (k ∷ ks) s
    → Fresh ks (assign k x s)
unfolding mem
Fresh-assign k x s ks new h q g =
    let apart : text_eq k q ≡ false = mem-apart q k ks new g in
    lookup-assign q k x s ∙ (let old : lookup q s ≡ none = h q (rw apart g) in rw apart old)

append-nil : (s : Setup) → s ≡ s ++ []
append-nil [] = refl
append-nil (x ∷ s) = ap (λ r. x ∷ r) (append-nil s)

module _ {J : Type 0} (lib : JsonLibrary J) (doc : IsDocumented lib) where
  -- A member that the table lists is fetched, and has the listed type.
  pub HasShape-index :
      (table : Table) (j : J) (k : Text) {t : ValueType}
      → HasShape lib table j
      → lookup k table ≡ some t
      → (v : J) × Member lib k j v × (lib.type_of v ≡ t) × Returns (lib.index k j) v
  HasShape-index table j k s e =
      let (v, m) = HasShape-has lib table j s k e in
      let listed : some (lib.type_of v) ≡ some _ = sym (ap (typed lib) m) ∙ s.members k ∙ e in
      (v, m, cc (listed), doc.index_lem k j v s.is_object m)

  setup_value_of_lem :
      (t : ValueType) (v : J) (k : Text) (l : List (Text × J))
      → lib.type_of v ≡ t
      → lib.type_of v ≢ object
      → Ends (setup_value_of lib t v) (Setting lib v) ⊥
  unfolding setup_value_of
  setup_value_of_lem string v k l h plain =
      let (t, run) = doc.get_string_lem v h in
      Ends-run (lib.get_string v) t _ run (inl (text_value t, a_text (a_string h run), λ w. refl))
  setup_value_of_lem number_integer v k l h plain =
      let (i, run) = doc.get_int_lem v h in
      Ends-run (lib.get_int v) i _ run (inl (int_value i, a_number (an_int h run), λ w. refl))
  setup_value_of_lem boolean v k l h plain =
      let (b, run) = doc.get_bool_lem v h in
      Ends-run (lib.get_bool v) b _ run (inl (bool_value b, a_flag (a_bool h run), λ w. refl))
  setup_value_of_lem object v k l h plain = absurd (plain h)
  setup_value_of_lem array v k l h plain = inl (int_value (pos 0), zero_for_array h, λ w. refl)
  setup_value_of_lem unnamed v k l h plain = inl (int_value (pos 0), zero_for_unnamed h, λ w. refl)

  parse_settings_lem :
      (l : List (Text × J)) (s : Setup)
      → NoObject lib l
      → Unique (keys l)
      → Fresh (keys l) s
      → Ends (parse_settings lib l s) (λ r. (s' : Setup) × Settings lib l s' × (r ≡ s ++ s')) ⊥
  unfolding parse_settings parse_setup_value mem
  parse_settings_lem [] s plain u f = inl (s, ([], no_setting, append-nil s), λ w. refl)
  parse_settings_lem ((k, v) ∷ l) s (plain, plains) (new, u) f =
      Ends-bind (parse_setup_value lib v) (λ x. parse_settings lib l (assign k x s))
        (setup_value_of_lem (lib.type_of v) v k l refl plain) (λ b. b)
        (λ x d.
          Ends-mono (parse_settings lib l (assign k x s))
            (parse_settings_lem l (assign k x s) plains u (Fresh-assign k x s (keys l) new f))
            (λ r p.
              let (s', ds, eq) = p in
              (
                (k, x) ∷ s',
                one_setting d ds,
                eq ∙ assign-fresh k x s s' (f k (rw (text_eq_refl k) refl)),
              ))
            (λ b. b))

  parse_setup_lem :
      (c v : J)
      → lib.type_of c ≡ object
      → Member lib (codes "setup") c v
      → NoObject lib (lib.items v)
      → Ends (parse_setup lib c) (Settings lib (lib.items v)) ⊥
  unfolding parse_setup lookup
  parse_setup_lem c v o m plain =
      Ends-run (lib.at (codes "setup") c) v _ (doc.at_lem (codes "setup") c v o m) (
        Ends-mono (parse_settings lib (lib.items v) [])
          (parse_settings_lem (lib.items v) [] plain (doc.keys_once v) (λ k h. refl))
          (λ r p. let (s', ds, eq) = p in subst (Settings lib (lib.items v)) (sym eq) ds) (λ b. b))

  parse_section_lem :
      (k : Text) (j : J)
      → HasShape lib fields j
      → lookup k fields ≡ some array
      → Ends
          (parse_section lib k j)
          (Section lib k j)
          ((v : J) × Member lib k j v × SomeUnnamed lib (lib.items v))
  unfolding parse_section
  parse_section_lem k j s e =
      let (v, m, t, run) = HasShape-index fields j k s e in
      Ends-run (lib.index k j) v _ run (
        Ends-mono (parse_environment lib v) (parse_environment_lem lib doc v) (λ r es. (v, m, es))
          (λ b. (v, m, b)))

  pub parse_config_lem :
      (c p v : J)
      → HasShape lib fields_configuration c
      → Member lib (codes "player count") c p
      → HasShape lib fields_player_count p
      → Member lib (codes "setup") c v
      → NoObject lib (lib.items v)
      → Ends (parse_config lib c) (DescribesConfig lib c) ⊥
  unfolding parse_config lookup
  parse_config_lem c p v s e s' e' plain =
      let (n, n_member, n_type, n_run) =
        HasShape-index fields_configuration c (codes "name") s refl in
      let (a, a_member, a_type, a_run) =
        HasShape-index fields_configuration c (codes "audience") s refl in
      let (m, m_member, m_type, m_run) =
        HasShape-index fields_player_count p (codes "min") s' refl in
      let (q, q_member, q_type, q_run) =
        HasShape-index fields_player_count p (codes "max") s' refl in
      let (name, name_run) = doc.get_string_lem n n_type in
      let (min, min_run) = doc.get_int_lem m m_type in
      let (max, max_run) = doc.get_int_lem q q_type in
      let (flag, flag_run) = doc.get_bool_lem a a_type in
      let p_run = doc.index_lem (codes "player count") c p s.is_object e in
      Ends-run _ n _ n_run (
        Ends-run _ name _ name_run (
          Ends-run _ p _ p_run (
            Ends-run _ m _ m_run (
              Ends-run _ min _ min_run (
                Ends-run _ p _ p_run (
                  Ends-run _ q _ q_run (
                    Ends-run _ max _ max_run (
                      Ends-run _ a _ a_run (
                        Ends-run _ flag _ flag_run (
                          Ends-bind (parse_setup lib c) _ (parse_setup_lem c v s.is_object e' plain)
                            (λ b. b)
                            (λ setup d. inl (
                              _,
                              record {
                                name = (n, n_member, a_string n_type name_run);
                                counts = p;
                                count_member = e;
                                min = (m, m_member, an_int m_type min_run);
                                max = (q, q_member, an_int q_type max_run);
                                audience = (a, a_member, a_bool a_type flag_run);
                                settings = v;
                                setup_member = e';
                                setup = d;
                              },
                              λ w. refl,
                            ))))))))))))

  -- Some section has a value in it that stands for no expression.
  abbrev pub SomeBadSection : J → Type 0
  SomeBadSection j = (k : Text) × ((v : J) × Member lib k j v × SomeUnnamed lib (lib.items v))

  pub parse_game_state_lem :
      (j : J)
      → HasShape lib fields j
      → Ends (parse_game_state lib j) (DescribesState lib j) (SomeBadSection j)
  unfolding parse_game_state lookup
  parse_game_state_lem j s =
      Ends-bind (parse_section lib (codes "constants") j) _
        (parse_section_lem (codes "constants") j s refl) (λ b. (codes "constants", b))
        λ constants c.
          Ends-bind (parse_section lib (codes "variables") j) _
            (parse_section_lem (codes "variables") j s refl) (λ b. (codes "variables", b))
            λ variables v.
              Ends-bind (parse_section lib (codes "per-player") j) _
                (parse_section_lem (codes "per-player") j s refl) (λ b. (codes "per-player", b))
                λ per_player p.
                  Ends-bind (parse_section lib (codes "per-audience") j) _
                    (parse_section_lem (codes "per-audience") j s refl)
                    (λ b. (codes "per-audience", b))
                    λ per_audience a. inl (
                      _,
                      record {
                        constants = c;
                        variables = v;
                        per_player = p;
                        per_audience = a;
                        no_context = refl;
                        no_rule = refl;
                        no_timer = refl;
                        no_request = refl;
                        no_message = refl;
                      },
                      λ w. refl,
                    )
