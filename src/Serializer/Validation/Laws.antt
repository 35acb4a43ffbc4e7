-- ===== src/Serializer/Validation/Laws.antt =====
-- Tests that decide, and the steps of the validation as such.
use social_gaming_platform.Prelude.{
  ◌≡◌, ◌↔◌, inl, inr, refl, sym, ap, ◌∙◌, ◌==◌, ==_iff, Bool, true, false, ◌&&◌, some, List, [],
  ◌∷◌, Text, length, Bool-cases, arith, ◌≤◌, text_eq, text_eq_iff,
}
use social_gaming_platform.Run.{pure, continue, ◌>>=◌}
use social_gaming_platform.Serializer.Keys.{
  lookup, keys, mem, Unique, Within, Within-of_length, length-le_of_Within, length-keys,
  lookup-of_mem, text_eq_refl,
}
use social_gaming_platform.Serializer.Json.{
  object, same_type, same_type-eq, same_type_refl, Parse, JsonLibrary, IsDocumented, Returns,
}
use social_gaming_platform.Serializer.Tables.{Table}
use social_gaming_platform.Serializer.Validation.{
  also, found_type, type_at, has_fields, valid_values,
}
use social_gaming_platform.Serializer.Validation.Shape.{HasShape, Decides}
use social_gaming_platform.Serializer.Validation.Fits.{
  Fits, HasShape-Within, HasShape-Within_back, HasShape-member, HasShape-of_Fits, Fits-of_lookup,
  mem_tail,
}

-- A test before the rest: what holds implies the test, and where it holds the rest decides.
pub Decides-also :
    (b : Bool) (m : Parse Bool) {P : Type 0}
    → (P → b ≡ true)
    → (b ≡ true → Decides m P)
    → Decides (also b m) P
Decides-also true m need rest = rest refl
Decides-also false m need rest = (false, λ w. refl, (λ h. absurd (cc h), need))

pub Decides-then :
    (m k : Parse Bool) {P Q : Type 0}
    → Decides m Q
    → (P → Q)
    → (Q → Decides k P)
    → Decides (m >>= λ b. also b k) P
Decides-then m k (b, run, (sound, complete)) need rest =
    let (c, run', same) = Decides-also b k (λ p. complete (need p)) (λ h. rest (sound h)) in
    (c, λ w. ap (λ o. continue o (λ b'. also b' k)) (run w) ∙ run' w, same)

-- A call that returns a value, before the rest.
pub Decides-bind :
    {A : Type 0} (m : Parse A) (a : A) (k : A → Parse Bool) {P : Type 0}
    → Returns m a
    → Decides (k a) P
    → Decides (m >>= k) P
Decides-bind m a k run (b, run', same) = (b, λ w. ap (λ o. continue o k) (run w) ∙ run' w, same)

pub Decides-iff : (m : Parse Bool) {P Q : Type 0} → Decides m P → (P ↔ Q) → Decides m Q
Decides-iff m (b, run, (sound, complete)) (to, back) =
    (b, run, (λ h. to (sound h), λ q. complete (back q)))

pub Decides-pure : (b : Bool) → Decides (pure b) (b ≡ true)
Decides-pure b = (b, λ w. refl, (λ h. h, λ h. h))

module _ {J : Type 0} (lib : JsonLibrary J) (doc : IsDocumented lib) where
  pub contains_inv :
      (k : Text) (j : J)
      → lib.contains k j ≡ true
      → (lib.type_of j ≡ object) × (mem k (keys (lib.items j)) ≡ true)
  contains_inv k j h =
      let both : (same_type (lib.type_of j) object && mem k (keys (lib.items j))) ≡ true =
        sym (doc.contains_lem k j) ∙ h in
      (same_type-eq (lib.type_of j) object (ground arith), ground arith)

  pub has_fields-Within :
      (table : Table) (j : J)
      → has_fields lib table j ≡ true
      → Within (keys table) (keys (lib.items j))
  unfolding mem
  has_fields-Within [] j h k g = cc
  has_fields-Within ((n, t) ∷ table) j h k g = elim (Bool-cases (text_eq n k)) [
    | inl e ↦
        let there : mem n (keys (lib.items j)) ≡ true = (contains_inv n j (ground arith)).1 in
        ap (λ (q : Text). mem q (keys (lib.items j))) (sym ((text_eq_iff n k).0 e)) ∙ there
    | inr e ↦ has_fields-Within table j (ground arith) k (rw e at g)
  ]

  Within-has_fields :
      (table : Table) (j : J)
      → lib.type_of j ≡ object
      → Within (keys table) (keys (lib.items j))
      → has_fields lib table j ≡ true
  unfolding mem
  Within-has_fields [] j o h = refl
  Within-has_fields ((n, t) ∷ table) j o h =
      let here : lib.contains n j ≡ true =
        doc.contains_lem n j ∙ (rw (o, h n (rw (text_eq_refl n) refl)) refl) in
      let later : has_fields lib table j ≡ true =
        Within-has_fields table j o
          (λ (k : Text) (g : mem k (keys table) ≡ true). h k (mem_tail k n t table g)) in
      rw (here, later) refl

  pub HasShape-has_fields :
      (table : Table) (j : J) → HasShape lib table j → has_fields lib table j ≡ true
  HasShape-has_fields table j s =
      Within-has_fields table j s.is_object (HasShape-Within lib table j s)

  pub same_size :
      (table : Table) (j : J)
      → Unique (keys table)
      → HasShape lib table j
      → (length table == lib.size j) ≡ true
  same_size table j u s =
      let there : length (keys table) ≤ length (keys (lib.items j)) =
        length-le_of_Within (keys table) (keys (lib.items j)) u (HasShape-Within lib table j s) in
      let back : length (keys (lib.items j)) ≤ length (keys table) =
        length-le_of_Within (keys (lib.items j)) (keys table) (doc.keys_once j)
          (HasShape-Within_back lib table j s) in
      (==_iff (length table) (lib.size j)).1
        (omega (arith, doc.size_lem j s.is_object, length-keys table, length-keys (lib.items j)))

  -- With as many members as the table and all of the table's keys, an object has no other key.
  no_others :
      (table : Table) (j : J)
      → Unique (keys table)
      → lib.type_of j ≡ object
      → has_fields lib table j ≡ true
      → (length table == lib.size j) ≡ true
      → Within (keys (lib.items j)) (keys table)
  no_others table j u o h s =
      let size : length table ≡ lib.size j = (==_iff (length table) (lib.size j)).0 s in
      Within-of_length (keys table) (keys (lib.items j)) u (has_fields-Within table j h)
        (omega (arith, doc.size_lem j o, length-keys table, length-keys (lib.items j)))

  valid_values-Fits :
      (table : Table) (l : List (Text × J))
      → Within (keys l) (keys table)
      → Decides (valid_values lib table l) (Fits lib table l)
  unfolding valid_values mem
  valid_values-Fits table [] h = (true, λ w. refl, (λ e. tt, λ e. refl))
  valid_values-Fits table ((k, v) ∷ l) h =
      let (t, found) = lookup-of_mem k table (h k (rw (text_eq_refl k) refl)) in
      let step : (same_type (lib.type_of v) t ≡ true) ↔ (lookup k table ≡ some (lib.type_of v)) = (
        λ e. found ∙ ap some (sym (same_type-eq (lib.type_of v) t e)),
        λ e.
            let same : t ≡ lib.type_of v = cc (sym found ∙ e) in
            rw same (same_type_refl (lib.type_of v)),
      ) in
      Decides-bind (type_at table k) t
        (λ t'. also (same_type (lib.type_of v) t') (valid_values lib table l))
        (λ w. ap (λ o. found_type o w) found)
        (Decides-also (same_type (lib.type_of v) t) (valid_values lib table l) (λ f. step.1 f.0)
          (λ e.
            Decides-iff (valid_values lib table l)
              (valid_values-Fits table l (λ q g. h q (mem_tail q k v l g)))
              (λ f. (step.0 e, f), λ f. f.1)))

  pub valid_values_lem :
      (table : Table) (j : J)
      → Unique (keys table)
      → lib.type_of j ≡ object
      → has_fields lib table j ≡ true
      → (length table == lib.size j) ≡ true
      → Decides (valid_values lib table (lib.items j)) (HasShape lib table j)
  valid_values_lem table j u o h s =
      let closed = no_others table j u o h s in
      Decides-iff (valid_values lib table (lib.items j))
        (valid_values-Fits table (lib.items j) closed)
        (
          HasShape-of_Fits lib table j o (has_fields-Within table j h),
          λ shape.
              Fits-of_lookup lib table (lib.items j) (doc.keys_once j)
                (HasShape-member lib table j shape),
        )
