-- ===== src/Collections/WeakVector/Elements.antt =====
-- Lists of ids.
use social_gaming_platform.Prelude.{
  ℕ, ◌==◌, ◌≡◌, refl, inl, inr, Bool, true, false, some, List, [], ◌∷◌, ◌++◌, if◌then◌else◌,
  Bool-cases, arith,
}
use social_gaming_platform.Collections.WeakVector.{erase_if, find_if}

unfoldable pub mem : ℕ → List ℕ → Bool
mem k [] = false
mem k (n ∷ ns) = if n == k then true else mem k ns

abbrev pub Unique : List ℕ → Type 0
Unique [] = Unit {0}
Unique (n ∷ ns) = (mem n ns ≡ false) × Unique ns

pub mem-snoc : (k n : ℕ) (ns : List ℕ) → mem k (ns ++ n ∷ []) ≡ (if n == k then true else mem k ns)
unfolding mem
mem-snoc k n [] = refl
mem-snoc k n (m ∷ ns) = ground (arith, mem-snoc k n ns)

pub Unique-snoc : (n : ℕ) (ns : List ℕ) → mem n ns ≡ false → Unique ns → Unique (ns ++ n ∷ [])
unfolding mem
Unique-snoc n [] h u = (refl, tt)
Unique-snoc n (m ∷ ns) h (fresh, u) =
    (ground (arith, mem-snoc m n ns), Unique-snoc n ns (ground arith) u)

pub mem-erase_if :
    (j k : ℕ) (ns : List ℕ)
    → Unique ns
    → mem j (erase_if (λ n. n == k) ns) ≡ (if k == j then false else mem j ns)
unfolding mem erase_if
mem-erase_if j k [] u = ground arith
mem-erase_if j k (n ∷ ns) (fresh, u) = ground (arith, mem-erase_if j k ns u, fresh)

pub Unique-erase_if : (k : ℕ) (ns : List ℕ) → Unique ns → Unique (erase_if (λ n. n == k) ns)
unfolding mem erase_if
Unique-erase_if k [] u = tt
Unique-erase_if k (n ∷ ns) (fresh, u) = elim (Bool-cases (n == k)) [
  | inl e ↦ rw e u
  | inr e ↦ rw e (ground (arith, mem-erase_if n k ns u), Unique-erase_if k ns u)
]

pub erase_if-absent : (k : ℕ) (ns : List ℕ) → mem k ns ≡ false → erase_if (λ n. n == k) ns ≡ ns
unfolding mem erase_if
erase_if-absent k [] h = refl
erase_if-absent k (n ∷ ns) h = ground (arith, erase_if-absent k ns)

pub find_if-mem : (k : ℕ) (ns : List ℕ) → mem k ns ≡ true → find_if (λ n. n == k) ns ≡ some k
unfolding mem
find_if-mem k [] h = cc
find_if-mem k (n ∷ ns) h = ground (arith, find_if-mem k ns)
