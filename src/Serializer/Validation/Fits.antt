-- ===== src/Serializer/Validation/Fits.antt =====
-- A shape in terms of the keys and of the loop over the items.
use social_gaming_platform.Prelude.{
  ◌≡◌, inl, inr, refl, sym, ap, ◌∙◌, true, false, Option, none, some, List, [], ◌∷◌, Text, text_eq,
  text_eq_iff, Bool-cases, Option-cases, arith,
}
use social_gaming_platform.Serializer.Keys.{
  lookup, keys, mem, Unique, Within, mem-keys, lookup-of_mem, mem-apart, text_eq_refl,
}
use social_gaming_platform.Serializer.Json.{ValueType, object, JsonLibrary}
use social_gaming_platform.Serializer.Tables.{Table}
use social_gaming_platform.Serializer.Validation.Shape.{typed, HasShape}

module _ {A : Type 0} where
  pub mem_tail :
      (k n : Text) (a : A) (l : List (Text × A))
      → mem k (keys l) ≡ true
      → mem k (keys ((n, a) ∷ l)) ≡ true
  unfolding mem
  mem_tail k n a l h = ground arith

  lookup_head : (n : Text) (a : A) (l : List (Text × A)) → lookup n ((n, a) ∷ l) ≡ some a
  unfolding lookup
  lookup_head n a l = rw (text_eq_refl n) refl

  lookup_tail :
      (k n : Text) (a b : A) (l : List (Text × A))
      → mem n (keys l) ≡ false
      → lookup k l ≡ some b
      → lookup k ((n, a) ∷ l) ≡ some b
  unfolding lookup
  lookup_tail k n a b l fresh e = rw (mem-apart k n (keys l) fresh (mem-keys k l e)) e

module _ {J : Type 0} (lib : JsonLibrary J) where
  -- Each item has the type that the table lists for its key.
  abbrev pub Fits : Table → List (Text × J) → Type 0
  Fits table [] = Unit {0}
  Fits table ((k, v) ∷ l) = (lookup k table ≡ some (lib.type_of v)) × Fits table l

  Fits-lookup :
      (table : Table) (k : Text) (v : J) (l : List (Text × J))
      → Fits table l
      → lookup k l ≡ some v
      → lookup k table ≡ some (lib.type_of v)
  unfolding lookup
  Fits-lookup table k v [] f h = cc
  Fits-lookup table k v ((n, u) ∷ l) (f, fs) h = elim (Bool-cases (text_eq n k)) [
    | inl e ↦
        let same : u ≡ v = cc (rw e at h) in
        ap (λ (t : Text). lookup t table) (sym ((text_eq_iff n k).0 e))
        ∙ f
        ∙ ap (λ (x : J). some (lib.type_of x)) same
    | inr e ↦ Fits-lookup table k v l fs (rw e at h)
  ]

  pub Fits-of_lookup :
      (table : Table) (l : List (Text × J))
      → Unique (keys l)
      → ((k : Text) (v : J) → lookup k l ≡ some v → lookup k table ≡ some (lib.type_of v))
      → Fits table l
  Fits-of_lookup table [] u h = tt
  Fits-of_lookup table ((n, v) ∷ l) (fresh, u) h = (
    h n v (lookup_head n v l),
    Fits-of_lookup table l u (λ k w e. h k w (lookup_tail k n v w l fresh e)),
  )

  pub HasShape-member :
      (table : Table) (j : J)
      → HasShape lib table j
      → (k : Text) (v : J) → lookup k (lib.items j) ≡ some v
      → lookup k table ≡ some (lib.type_of v)
  HasShape-member table j s k v e = sym (s.members k) ∙ ap (typed lib) e

  typed_inv : (o : Option J) {t : ValueType} → typed lib o ≡ some t → (v : J) × (o ≡ some v)
  typed_inv none h = absurd (cc h)
  typed_inv (some v) h = (v, refl)

  pub HasShape-has :
      (table : Table) (j : J)
      → HasShape lib table j
      → (k : Text) {t : ValueType} → lookup k table ≡ some t
      → (v : J) × (lookup k (lib.items j) ≡ some v)
  HasShape-has table j s k e = typed_inv (lookup k (lib.items j)) (s.members k ∙ e)

  pub HasShape-Within :
      (table : Table) (j : J) → HasShape lib table j → Within (keys table) (keys (lib.items j))
  HasShape-Within table j s k h =
      let (t, e) = lookup-of_mem k table h in
      let (v, f) = HasShape-has table j s k e in mem-keys k (lib.items j) f

  pub HasShape-Within_back :
      (table : Table) (j : J) → HasShape lib table j → Within (keys (lib.items j)) (keys table)
  HasShape-Within_back table j s k h =
      let (v, e) = lookup-of_mem k (lib.items j) h in
      mem-keys k table (HasShape-member table j s k v e)

  missing :
      (table : Table) (j : J)
      → Within (keys table) (keys (lib.items j))
      → (k : Text) → lookup k (lib.items j) ≡ none
      → none ≡ lookup k table
  missing table j w k e = elim (Option-cases (lookup k table)) [
    | inl f ↦ sym f
    | inr (t, f) ↦
        let (v, g) = lookup-of_mem k (lib.items j) (w k (mem-keys k table f)) in
        absurd (cc (sym e ∙ g))
  ]

  pub HasShape-of_Fits :
      (table : Table) (j : J)
      → lib.type_of j ≡ object
      → Within (keys table) (keys (lib.items j))
      → Fits table (lib.items j)
      → HasShape lib table j
  HasShape-of_Fits table j o w f = record {
    is_object = o;
    members = λ k. elim (Option-cases (lookup k (lib.items j))) [
      | inl e ↦ ap (typed lib) e ∙ missing table j w k e
      | inr (v, e) ↦ ap (typed lib) e ∙ sym (Fits-lookup table k v (lib.items j) f e)
    ];
  }
