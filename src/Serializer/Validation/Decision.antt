-- ===== src/Serializer/Validation/Decision.antt =====
-- The validation decides whether a value is a game specification.
use social_gaming_platform.Prelude.{
  ◌≡◌, refl, sym, ◌∙◌, ◌==◌, ltb, Bool, true, ◌&&◌, [], ◌∷◌, Text, codes, length, arith,
}
use mathlib.Core.Path.{subst}
use social_gaming_platform.Run.{pure, ◌>>=◌}
use social_gaming_platform.Serializer.Keys.{keys, mem, lookup-of_mem, Unique}
use social_gaming_platform.Serializer.Json.{object, Parse, JsonLibrary, IsDocumented, Returns}
use social_gaming_platform.Serializer.Tables.{
  Table, fields, fields_configuration, fields_player_count,
}
use social_gaming_platform.Serializer.Validation.{
  also, has_fields, has_all_required_fields, has_no_extra_fields, valid_field_values,
  is_valid_game_spec,
}
use social_gaming_platform.Serializer.Validation.Shape.{Member, HasShape, IsGameSpec, Decides}
use social_gaming_platform.Serializer.Validation.Laws.{
  Decides-also, Decides-then, Decides-bind, Decides-iff, Decides-pure, contains_inv,
  has_fields-Within, HasShape-has_fields, same_size, valid_values_lem,
}

fields-Unique : Unique (keys fields)
unfolding mem
fields-Unique = (refl, (refl, (refl, (refl, (refl, (refl, tt))))))

fields_configuration-Unique : Unique (keys fields_configuration)
unfolding mem
fields_configuration-Unique = (refl, (refl, (refl, (refl, tt))))

fields_player_count-Unique : Unique (keys fields_player_count)
unfolding mem
fields_player_count-Unique = (refl, (refl, tt))

and3 : {a b c : Bool} → a ≡ true → b ≡ true → c ≡ true → (a && b && c) ≡ true
and3 f g h = ground arith

module _ {J : Type 0} (lib : JsonLibrary J) (doc : IsDocumented lib) where
  -- The fetched member, in a statement that asks for some member.
  Decides-member :
      (k : Text) (j v : J) (m : Parse J) (f : J → Parse Bool) {P : J → Type 0}
      → Member lib k j v
      → Returns m v
      → Decides (f v) (P v)
      → Decides (m >>= f) ((x : J) × Member lib k j x × P x)
  Decides-member k j v m f {P} e run d =
      Decides-iff (m >>= f) (Decides-bind m v f run d)
        (λ p. (v, e, p), λ q. let same : q.0 ≡ v = cc (sym q.1 ∙ e) in subst P same q.2)

  has_fields-object :
      (table : Table) (j : J)
      → has_fields lib table j ≡ true
      → ltb 0 (length table) ≡ true
      → lib.type_of j ≡ object
  has_fields-object [] j h more = absurd (cc more)
  has_fields-object ((n, t) ∷ table) j h more = (contains_inv lib doc n j (ground arith)).0

  has_fields-member :
      (table : Table) (j : J) (k : Text)
      → has_fields lib table j ≡ true
      → mem k (keys table) ≡ true
      → (v : J) × Member lib k j v
  has_fields-member table j k h m =
      lookup-of_mem k (lib.items j) (has_fields-Within lib doc table j h k m)

  HasCounts : J → Type 0
  HasCounts config =
      (p : J) × Member lib (codes "player count") config p
      × (has_fields lib fields_player_count p ≡ true)

  HasConfig : J → Type 0
  HasConfig j =
      (c : J) × Member lib (codes "configuration") j c
      × ((has_fields lib fields_configuration c ≡ true) × HasCounts c)

  has_config_lem :
      (j c : J)
      → lib.type_of j ≡ object
      → Member lib (codes "configuration") j c
      → Decides
          (also (has_fields lib fields_configuration c) (do
            config' ← lib.at (codes "configuration") j
            player_count ← lib.at (codes "player count") config'
            pure (has_fields lib fields_player_count player_count)))
          ((has_fields lib fields_configuration c ≡ true) × HasCounts c)
  unfolding HasCounts mem
  has_config_lem j c o e =
      Decides-also (has_fields lib fields_configuration c) _ (λ p. p.0)
        λ inner.
          let o' = has_fields-object fields_configuration c inner refl in
          let (p, e') =
            has_fields-member fields_configuration c (codes "player count") inner refl in
          Decides-iff _
            (Decides-bind (lib.at (codes "configuration") j) c _
              (doc.at_lem (codes "configuration") j c o e)
              (Decides-member (codes "player count") c p (lib.at (codes "player count") c) _ e'
                (doc.at_lem (codes "player count") c p o' e')
                (Decides-pure (has_fields lib fields_player_count p))))
            (λ q. (inner, q), λ q. q.1)

  has_all_required_fields_lem :
      (j : J)
      → Decides (has_all_required_fields lib j) ((has_fields lib fields j ≡ true) × HasConfig j)
  unfolding has_all_required_fields HasCounts HasConfig mem
  has_all_required_fields_lem j =
      Decides-also (has_fields lib fields j) _ (λ p. p.0)
        λ top.
          let o = has_fields-object fields j top refl in
          let (c, e) = has_fields-member fields j (codes "configuration") top refl in
          Decides-iff _
            (Decides-member (codes "configuration") j c (lib.at (codes "configuration") j) _ e
              (doc.at_lem (codes "configuration") j c o e) (has_config_lem j c o e))
            (λ p. (top, p), λ p. p.1)

  abbrev SameSizes : J → J → J → Type 0
  SameSizes j c p =
      ((length fields == lib.size j) ≡ true)
      × ((length fields_configuration == lib.size c) ≡ true)
      × ((length fields_player_count == lib.size p) ≡ true)

  abbrev Shapes : J → J → J → Type 0
  Shapes j c p =
      HasShape lib fields j
      × HasShape lib fields_configuration c
      × HasShape lib fields_player_count p

  -- From here on, the object and its parts have the fields of the tables.
  module _ (j c p : J) (top : has_fields lib fields j ≡ true)
      (config_member : Member lib (codes "configuration") j c)
      (inner : has_fields lib fields_configuration c ≡ true)
      (count_member : Member lib (codes "player count") c p)
      (counts : has_fields lib fields_player_count p ≡ true) where
    has_no_extra_fields_lem : Decides (has_no_extra_fields lib j) (SameSizes j c p)
    unfolding has_no_extra_fields
    has_no_extra_fields_lem =
        let o = has_fields-object fields j top refl in
        let o' = has_fields-object fields_configuration c inner refl in
        let at_config = doc.at_lem (codes "configuration") j c o config_member in
        Decides-bind _ c _ at_config (
          Decides-bind _ c _ at_config (
            Decides-bind _ p _ (doc.at_lem (codes "player count") c p o' count_member) (
              Decides-iff _ (Decides-pure _)
                (λ h. (ground arith, ground arith, ground arith), λ q. and3 q.0 q.1 q.2))))

    valid_field_values_lem : SameSizes j c p → Decides (valid_field_values lib j) (Shapes j c p)
    unfolding valid_field_values
    valid_field_values_lem (s, s', s'') =
        let o = has_fields-object fields j top refl in
        let o' = has_fields-object fields_configuration c inner refl in
        let o'' = has_fields-object fields_player_count p counts refl in
        let index_config = doc.index_lem (codes "configuration") j c o config_member in
        Decides-then _ _ (valid_values_lem lib doc fields j fields-Unique o top s) (λ q. q.0)
          λ first. Decides-bind _ c _ index_config (
            Decides-then _ _
              (valid_values_lem lib doc fields_configuration c fields_configuration-Unique o' inner
                s')
              (λ q. q.1)
              λ second. Decides-bind _ c _ index_config (
                Decides-bind _ p _ (doc.index_lem (codes "player count") c p o' count_member) (
                  Decides-iff _
                    (valid_values_lem lib doc fields_player_count p fields_player_count-Unique o''
                      counts s'')
                    (λ third. (first, second, third), λ q. q.2))))

  IsGameSpec-Shapes :
      (j c p : J)
      → Member lib (codes "configuration") j c
      → Member lib (codes "player count") c p
      → IsGameSpec lib j
      → Shapes j c p
  IsGameSpec-Shapes j c p e e' s =
      let same : s.config ≡ c = cc (sym s.config_member ∙ e) in
      let inner : HasShape lib fields_configuration c =
        subst (HasShape lib fields_configuration) same s.inner in
      let count : Member lib (codes "player count") c s.player_count =
        subst (λ x. Member lib (codes "player count") x s.player_count) same s.count_member in
      let same' : s.player_count ≡ p = cc (sym count ∙ e') in
      (s.top, inner, subst (HasShape lib fields_player_count) same' s.counts)

  Shapes-SameSizes : (j c p : J) → Shapes j c p → SameSizes j c p
  Shapes-SameSizes j c p (s, s', s'') = (
    same_size lib doc fields j fields-Unique s,
    same_size lib doc fields_configuration c fields_configuration-Unique s',
    same_size lib doc fields_player_count p fields_player_count-Unique s'',
  )

  IsGameSpec-required : (j : J) → IsGameSpec lib j → (has_fields lib fields j ≡ true) × HasConfig j
  unfolding HasConfig HasCounts
  IsGameSpec-required j s = (
    HasShape-has_fields lib doc fields j s.top,
    (
      s.config,
      s.config_member,
      (
        HasShape-has_fields lib doc fields_configuration s.config s.inner,
        (
          s.player_count,
          s.count_member,
          HasShape-has_fields lib doc fields_player_count s.player_count s.counts,
        ),
      ),
    ),
  )

  -- isValidGameSpec returns on every value, neither throwing nor undefined, and says true exactly of the
  -- game specifications: objects with exactly the members that the tables list, of the listed types, whose
  -- configuration and player count are such objects too.
  pub is_valid_game_spec_lem : (j : J) → Decides (is_valid_game_spec lib j) (IsGameSpec lib j)
  unfolding HasConfig HasCounts is_valid_game_spec
  is_valid_game_spec_lem j =
      Decides-then (has_all_required_fields lib j) _ (has_all_required_fields_lem j)
        (IsGameSpec-required j)
        λ r.
          let (top, (c, e, (inner, (p, e', counts)))) = r in
          Decides-then (has_no_extra_fields lib j) _
            (has_no_extra_fields_lem j c p top e inner e' counts)
            (λ s. Shapes-SameSizes j c p (IsGameSpec-Shapes j c p e e' s))
            λ sizes.
              Decides-iff (valid_field_values lib j)
                (valid_field_values_lem j c p top e inner e' counts sizes)
                (
                  λ q. record {
                    config = c;
                    player_count = p;
                    top = q.0;
                    config_member = e;
                    inner = q.1;
                    count_member = e';
                    counts = q.2;
                  },
                  IsGameSpec-Shapes j c p e e',
                )
