-- ===== src/Serializer/Keys.antt =====
-- Lists of named values, such as the members of a JSON object and the entries of a std::map, and their
-- keys.
use social_gaming_platform.Prelude.{
  suc, ◌≤◌, ◌≡◌, inl, inr, refl, sym, ap, ◌∙◌, Bool, true, false, Option, none, some, List, [], ◌∷◌,
  ◌++◌, Text, text_eq, text_eq_iff, if◌then◌else◌, length, Bool-cases, arith,
}

module _ {A : Type 0} where
  -- The value at a key.
  unfoldable pub lookup : Text → List (Text × A) → Option A
  lookup k [] = none
  lookup k ((n, a) ∷ l) = if text_eq n k then some a else lookup k l

  -- `map[key] = a` on a std::unordered_map; a new key comes last.
  unfoldable pub assign : Text → A → List (Text × A) → List (Text × A)
  assign k a [] = (k, a) ∷ []
  assign k a ((n, b) ∷ l) =
      let rest = assign k a l in if text_eq n k then (n, a) ∷ l else (n, b) ∷ rest

  abbrev pub keys : List (Text × A) → List Text
  keys [] = []
  keys ((n, a) ∷ l) = n ∷ keys l

unfoldable pub mem : Text → List Text → Bool
mem k [] = false
mem k (n ∷ ns) = if text_eq n k then true else mem k ns

unfoldable pub without : Text → List Text → List Text
without k [] = []
without k (n ∷ ns) = if text_eq n k then ns else n ∷ without k ns

-- Each key stands once.
abbrev pub Unique : List Text → Type 0
Unique [] = Unit {0}
Unique (n ∷ ns) = (mem n ns ≡ false) × Unique ns

abbrev pub Within : List Text → List Text → Type 0
Within ns ms = (k : Text) → mem k ns ≡ true → mem k ms ≡ true

pub text_eq_refl : (t : Text) → text_eq t t ≡ true
text_eq_refl t = (text_eq_iff t t).1 refl

length-without :
    (k : Text) (ns : List Text) → mem k ns ≡ true → suc (length (without k ns)) ≡ length ns
unfolding mem without
length-without k [] h = cc
length-without k (n ∷ ns) h = elim (Bool-cases (text_eq n k)) [
  | inl e ↦ rw e refl
  | inr e ↦ rw e (ap suc (length-without k ns (rw e at h)))
]

mem-without :
    (k n : Text) (ns : List Text)
    → text_eq n k ≡ false
    → mem k ns ≡ true
    → mem k (without n ns) ≡ true
unfolding mem without
mem-without k n [] d h = cc
mem-without k n (m ∷ ns) d h = elim (Bool-cases (text_eq m n)) [
  | inl e ↦
      let same : m ≡ n = (text_eq_iff m n).0 e in
      let other : text_eq m k ≡ false = ap (λ (t : Text). text_eq t k) same ∙ d in
      rw e (rw other at h)
  | inr e ↦ rw e (elim (Bool-cases (text_eq m k)) [
    | inl f ↦ rw f refl
    | inr f ↦ rw f (mem-without k n ns d (rw f at h))
  ])
]

-- Where two keys agree, one of them cannot be missing from a list that has the other.
pub mem-apart :
    (k n : Text) (ns : List Text) → mem n ns ≡ false → mem k ns ≡ true → text_eq n k ≡ false
mem-apart k n ns h g = elim (Bool-cases (text_eq n k)) [
  | inl e ↦
      let same : n ≡ k = (text_eq_iff n k).0 e in
      let both : mem n ns ≡ mem k ns = ap (λ (t : Text). mem t ns) same in cc (both)
  | inr e ↦ e
]

pub length-le_of_Within : (ns ms : List Text) → Unique ns → Within ns ms → length ns ≤ length ms
unfolding mem
length-le_of_Within [] ms u h = omega arith
length-le_of_Within (n ∷ ns) ms (fresh, u) h =
    let here : mem n ms ≡ true = h n (rw (text_eq_refl n) refl) in
    let rest : Within ns (without n ms) = λ (k : Text) (g : mem k ns ≡ true).
      let apart : text_eq n k ≡ false = mem-apart k n ns fresh g in
      mem-without k n ms apart (h k (rw apart g)) in
    let shorter : length ns ≤ length (without n ms) =
      length-le_of_Within ns (without n ms) u rest in
    omega (arith, length-without n ms here)

-- The pigeonhole principle: a list that has all of `ns` and is no longer has nothing else.
pub Within-of_length :
    (ns ms : List Text) → Unique ns → Within ns ms → length ms ≤ length ns → Within ms ns
unfolding mem
Within-of_length ns ms u h short k g = elim (Bool-cases (mem k ns)) [
  | inl e ↦ e
  | inr e ↦
      let more : Within (k ∷ ns) ms = λ (q : Text) (f : mem q (k ∷ ns) ≡ true).
        elim (Bool-cases (text_eq k q)) [
          | inl same ↦ ap (λ (t : Text). mem t ms) (sym ((text_eq_iff k q).0 same)) ∙ g
          | inr other ↦ h q (rw other at f)
        ] in
      absurd (omega (arith, length-le_of_Within (k ∷ ns) ms (e, u) more))
]

module _ {A : Type 0} where
  pub length-keys : (l : List (Text × A)) → length (keys l) ≡ length l
  length-keys [] = refl
  length-keys ((n, a) ∷ l) = ap suc (length-keys l)

  pub mem-keys :
      (k : Text) (l : List (Text × A)) {a : A} → lookup k l ≡ some a → mem k (keys l) ≡ true
  unfolding lookup mem
  mem-keys k [] h = cc
  mem-keys k ((n, b) ∷ l) h = elim (Bool-cases (text_eq n k)) [
    | inl e ↦ rw e refl
    | inr e ↦ rw e (mem-keys k l (rw e at h))
  ]

  pub lookup-of_mem :
      (k : Text) (l : List (Text × A)) → mem k (keys l) ≡ true → (a : A) × (lookup k l ≡ some a)
  unfolding lookup mem
  lookup-of_mem k [] h = absurd (cc h)
  lookup-of_mem k ((n, b) ∷ l) h = elim (Bool-cases (text_eq n k)) [
    | inl e ↦ (b, rw e refl)
    | inr e ↦ let (a, f) = lookup-of_mem k l (rw e at h) in (a, rw e f)
  ]

  pub lookup-assign :
      (j k : Text) (a : A) (l : List (Text × A))
      → lookup j (assign k a l) ≡ (if text_eq k j then some a else lookup j l)
  unfolding lookup assign
  lookup-assign j k a [] = refl
  lookup-assign j k a ((n, b) ∷ l) =
      ground (arith, lookup-assign j k a l, text_eq_iff n k, text_eq_iff n j, text_eq_iff k j)

  pub assign-fresh :
      (k : Text) (a : A) (l r : List (Text × A))
      → lookup k l ≡ none
      → assign k a l ++ r ≡ l ++ ((k, a) ∷ r)
  unfolding lookup assign
  assign-fresh k a [] r h = refl
  assign-fresh k a ((n, b) ∷ l) r h = elim (Bool-cases (text_eq n k)) [
    | inl e ↦ absurd (cc (rw e at h))
    | inr e ↦ rw e (ap (λ s. (n, b) ∷ s) (assign-fresh k a l r (rw e at h)))
  ]
