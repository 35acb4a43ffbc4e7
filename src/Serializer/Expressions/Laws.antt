-- ===== src/Serializer/Expressions/Laws.antt =====
-- What the parsing of an expression returns.
use social_gaming_platform.Prelude.{
  ℕ, zero, suc, ◌<◌, ◌≡◌, ◌⊎◌, inl, inr, refl, sym, ap, ◌∙◌, true, false, none, List, [], ◌∷◌, Text,
  text_eq, Bool-cases, arith,
}
use mathlib.Core.Path.{subst}
use social_gaming_platform.Run.{undefined, pure, continue, ◌>>=◌}
use social_gaming_platform.Spec.Expression.{
  Expression, ExpMap, ExpList, exp_map, exp_list, exp_int, exp_bool, exp_string, empty_map, entry,
  empty_list, element, find_key, assign_key, push_back,
}
use social_gaming_platform.Spec.Pointer.Laws.{find_key-assign_key}
use social_gaming_platform.Serializer.Keys.{keys, mem, Unique, mem-apart, text_eq_refl}
use social_gaming_platform.Serializer.Json.{
  ValueType, object, array, string, boolean, number_integer, unnamed, Parse, JsonLibrary,
  IsDocumented, Returns, Shallower,
}
use social_gaming_platform.Serializer.Expressions.{
  parse_entries, parse_elements, parse_typed, parse_within, parse_expression, parse_environment,
}
use social_gaming_platform.Serializer.Expressions.Denotes.{
  Denotes, a_string, an_int, a_bool, a_map, a_list, Entries, no_entry, one_entry, Elements,
  no_element, one_element, Unnamed, itself, in_object, in_array, SomeUnnamed, here, there,
}

abbrev pub Undefined : {A : Type 0} → Parse A → Type 0
Undefined m = (w : Unit {0}) → m w ≡ undefined

-- A call that returns a value of which `P` holds, or else is undefined and `U` holds.
abbrev pub Ends : {A : Type 0} → Parse A → (A → Type 0) → Type 0 → Type 0
Ends {A} m P U = ((a : A) × P a × Returns m a) ⊎ (U × Undefined m)

-- The end of a `do` block with two parts, from the ends of the parts.
pub Ends-bind :
    {A B : Type 0} (m : Parse A) (k : A → Parse B) {P : A → Type 0} {U : Type 0} {Q : B → Type 0}
    {V : Type 0}
    → Ends m P U
    → (U → V)
    → ((a : A) → P a → Ends (k a) Q V)
    → Ends (m >>= k) Q V
Ends-bind m k (inl (a, p, run)) lift rest = elim (rest a p) [
  | inl (b, q, run') ↦ inl (b, q, λ w. ap (λ o. continue o k) (run w) ∙ run' w)
  | inr (v, bad) ↦ inr (v, λ w. ap (λ o. continue o k) (run w) ∙ bad w)
]
Ends-bind m k (inr (u, bad)) lift rest = inr (lift u, λ w. ap (λ o. continue o k) (bad w))

pub Ends-mono :
    {A : Type 0} (m : Parse A) {P Q : A → Type 0} {U V : Type 0}
    → Ends m P U
    → ((a : A) → P a → Q a)
    → (U → V)
    → Ends m Q V
Ends-mono m (inl (a, p, run)) to lift = inl (a, to a p, run)
Ends-mono m (inr (u, bad)) to lift = inr (lift u, bad)

join : ExpMap → ExpMap → ExpMap
join empty_map n = n
join (entry k e m) n = entry k e (join m n)

join_list : ExpList → ExpList → ExpList
join_list empty_list fs = fs
join_list (element e es) fs = element e (join_list es fs)

join-empty : (m : ExpMap) → join m empty_map ≡ m
unfolding join
join-empty empty_map = refl
join-empty (entry k e m) = ap (λ r. entry k e r) (join-empty m)

join_list-empty : (es : ExpList) → join_list es empty_list ≡ es
unfolding join_list
join_list-empty empty_list = refl
join_list-empty (element e es) = ap (λ r. element e r) (join_list-empty es)

-- A new key comes last.
assign_key-fresh :
    (k : Text) (e : Expression) (m n : ExpMap)
    → find_key k m ≡ none
    → join (assign_key k e m) n ≡ join m (entry k e n)
unfolding find_key assign_key join
assign_key-fresh k e empty_map n h = refl
assign_key-fresh k e (entry l f m) n h = elim (Bool-cases (text_eq l k)) [
  | inl q ↦ absurd (cc (rw q at h))
  | inr q ↦ rw q (ap (λ r. entry l f r) (assign_key-fresh k e m n (rw q at h)))
]

push_back-join :
    (es fs : ExpList) (e : Expression) → join_list (push_back es e) fs ≡ join_list es (element e fs)
unfolding push_back join_list
push_back-join empty_list fs e = refl
push_back-join (element f es) fs e = ap (λ r. element f r) (push_back-join es fs e)

-- None of these keys is in the map yet.
abbrev Fresh : List Text → ExpMap → Type 0
Fresh ks m = (k : Text) → mem k ks ≡ true → find_key k m ≡ none

Fresh-assign_key :
    (k : Text) (e : Expression) (m : ExpMap) (ks : List Text)
    → mem k ks ≡ false
    → Fresh (k ∷ ks) m
    → Fresh ks (assign_key k e m)
unfolding mem
Fresh-assign_key k e m ks new h q g =
    let apart : text_eq k q ≡ false = mem-apart q k ks new g in
    find_key-assign_key q k e m ∙ (let old : find_key q m ≡ none = h q (rw apart g) in rw apart old)

Shallower-mono :
    {J : Type 0} (depth : J → ℕ) (d n : ℕ) (l : List (Text × J))
    → d < suc n
    → Shallower depth d l
    → Shallower depth n l
Shallower-mono depth d n [] h s = tt
Shallower-mono depth d n ((k, v) ∷ l) h (s, ss) = (omega arith, Shallower-mono depth d n l h ss)

-- What one call of parseExpression does.
abbrev pub Parses : {J : Type 0} → JsonLibrary J → (J → Parse Expression) → J → Type 0
Parses lib parse v = Ends (parse v) (Denotes lib v) (Unnamed lib v)

module _ {J : Type 0} (lib : JsonLibrary J) (doc : IsDocumented lib) where
  module _ (parse : J → Parse Expression) (n : ℕ)
      (each : (v : J) → lib.depth v < n → Parses lib parse v) where
    parse_entries_lem :
        (l : List (Text × J)) (m : ExpMap)
        → Shallower lib.depth n l
        → Unique (keys l)
        → Fresh (keys l) m
        → Ends
            (parse_entries parse l m)
            (λ r. (m' : ExpMap) × Entries lib l m' × (r ≡ join m m'))
            (SomeUnnamed lib l)
    unfolding parse_entries mem join
    parse_entries_lem [] m s u f = inl (m, (empty_map, no_entry, sym (join-empty m)), λ w. refl)
    parse_entries_lem ((k, v) ∷ l) m (s, ss) (new, u) f =
        Ends-bind (parse v) (λ e. parse_entries parse l (assign_key k e m)) (each v s) here
          (λ e d.
            Ends-mono (parse_entries parse l (assign_key k e m))
              (parse_entries_lem l (assign_key k e m) ss u (Fresh-assign_key k e m (keys l) new f))
              (λ r p.
                let (m', es, eq) = p in
                (
                  entry k e m',
                  one_entry d es,
                  eq ∙ assign_key-fresh k e m m' (f k (rw (text_eq_refl k) refl)),
                ))
              there)

    parse_elements_lem :
        (l : List (Text × J)) (es : ExpList)
        → Shallower lib.depth n l
        → Ends
            (parse_elements parse l es)
            (λ r. (fs : ExpList) × Elements lib l fs × (r ≡ join_list es fs))
            (SomeUnnamed lib l)
    unfolding parse_elements
    parse_elements_lem [] es s =
        inl (es, (empty_list, no_element, sym (join_list-empty es)), λ w. refl)
    parse_elements_lem ((k, v) ∷ l) es (s, ss) =
        Ends-bind (parse v) (λ e. parse_elements parse l (push_back es e)) (each v s) here
          (λ e d.
            Ends-mono (parse_elements parse l (push_back es e))
              (parse_elements_lem l (push_back es e) ss)
              (λ r p.
                let (fs, ds, eq) = p in
                (element e fs, one_element d ds, eq ∙ push_back-join es fs e))
              there)

    pub parse_map_lem :
        (j : J)
        → Shallower lib.depth n (lib.items j)
        → Ends
            (parse_entries parse (lib.items j) empty_map)
            (Entries lib (lib.items j))
            (SomeUnnamed lib (lib.items j))
    unfolding join find_key
    parse_map_lem j s =
        Ends-mono (parse_entries parse (lib.items j) empty_map)
          (parse_entries_lem (lib.items j) empty_map s (doc.keys_once j) (λ k h. refl))
          (λ r p. let (m, es, eq) = p in subst (Entries lib (lib.items j)) (sym eq) es) (λ u. u)

    parse_typed_lem :
        (t : ValueType) (j : J)
        → lib.type_of j ≡ t
        → Shallower lib.depth n (lib.items j)
        → Ends (parse_typed lib parse t j) (Denotes lib j) (Unnamed lib j)
    unfolding parse_typed join_list
    parse_typed_lem string j h s =
        let (t, run) = doc.get_string_lem j h in
        inl (
          exp_string t,
          a_string h run,
          λ w. ap (λ o. continue o (λ x. pure (exp_string x))) (run w),
        )
    parse_typed_lem number_integer j h s =
        let (i, run) = doc.get_int_lem j h in
        inl (exp_int i, an_int h run, λ w. ap (λ o. continue o (λ x. pure (exp_int x))) (run w))
    parse_typed_lem boolean j h s =
        let (b, run) = doc.get_bool_lem j h in
        inl (exp_bool b, a_bool h run, λ w. ap (λ o. continue o (λ x. pure (exp_bool x))) (run w))
    parse_typed_lem object j h s =
        Ends-bind (parse_entries parse (lib.items j) empty_map) (λ m. pure (exp_map m))
          (parse_map_lem j s) (in_object h) (λ m es. inl (exp_map m, a_map h es, λ w. refl))
    parse_typed_lem array j h s =
        Ends-bind (parse_elements parse (lib.items j) empty_list) (λ es. pure (exp_list es))
          (parse_elements_lem (lib.items j) empty_list s) (in_array h)
          (λ r p.
            let (es, ds, eq) = p in
            inl (exp_list r, a_list h (subst (Elements lib (lib.items j)) (sym eq) ds), λ w. refl))
    parse_typed_lem unnamed j h s = inr (itself h, λ w. refl)

  parse_within_lem : (n : ℕ) (j : J) → lib.depth j < n → Parses lib (parse_within lib n) j
  unfolding parse_within
  parse_within_lem zero j h = absurd (omega arith)
  parse_within_lem (suc n) j h =
      parse_typed_lem (parse_within lib n) n (parse_within_lem n) (lib.type_of j) j refl
        (Shallower-mono lib.depth (lib.depth j) n (lib.items j) h (doc.items_shallower j))

  -- parseExpression always has fuel enough, and never throws. It returns the expression that the value
  -- denotes; and it is undefined exactly where the value is, or has at some depth in an object or an
  -- array, a value of a type that the switch does not name.
  pub parse_expression_lem : (j : J) → Parses lib (parse_expression lib) j
  unfolding parse_expression
  parse_expression_lem j = parse_within_lem (suc (lib.depth j)) j (omega arith)

  pub parse_environment_lem :
      (j : J)
      → Ends (parse_environment lib j) (Entries lib (lib.items j)) (SomeUnnamed lib (lib.items j))
  unfolding parse_environment
  parse_environment_lem j =
      parse_map_lem (parse_expression lib) (lib.depth j) (λ v h. parse_expression_lem v) j
        (doc.items_shallower j)
