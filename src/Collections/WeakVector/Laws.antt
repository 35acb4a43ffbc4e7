-- ===== src/Collections/WeakVector/Laws.antt =====
-- The vector as a list of the objects that are in use.
use social_gaming_platform.Prelude.{
  ℕ, ◌+◌, ◌<◌, ◌==◌, ==_iff, ◌≡◌, refl, sym, ap, ◌∙◌, inl, inr, Bool, true, false, Option, none,
  some, List, [], ◌∷◌, ◌++◌, map, if◌then◌else◌, length, Bool-cases, arith,
}
use mathlib.Core.Path.{subst}
use social_gaming_platform.Collections.WeakVector.{
  WeakVector, empty_vector, set_flag, lock, erase_if, remove_where, disassociate, release,
  create_container, emplace, size, locked, elements, detach, detach_all, remove_all,
}
use social_gaming_platform.Collections.WeakVector.Elements.{
  mem, Unique, mem-snoc, Unique-snoc, mem-erase_if, Unique-erase_if, erase_if-absent, find_if-mem,
}

-- What the owners of the objects do: make one in the vector, or drop the last reference to one. An object
-- that is gone has no reference to drop.
pub data Use : Type 0 where
  emplacing : Use
  releasing : ℕ → Use

unfoldable pub use_vector : Use → WeakVector → WeakVector
unfolding emplace release
use_vector emplacing v = (emplace v).1
use_vector (releasing n) v = if v.alive n then release n v else v

unfoldable pub use_all : List Use → WeakVector → WeakVector
unfolding use_vector
use_all [] v = v
use_all (u ∷ us) v = use_all us (use_vector u v)

-- The objects in use, oldest first, by the number of those that were made before.
abbrev pub in_use : List Use → ℕ → List ℕ → List ℕ
in_use [] next ns = ns
in_use (emplacing ∷ us) next ns = in_use us (next + 1) (ns ++ next ∷ [])
in_use (releasing n ∷ us) next ns = in_use us next (erase_if (λ m. m == n) ns)

pub record Tracks (v : WeakVector) : Type 0 where
  pub once : Unique v.collection
  pub living : (n : ℕ) → v.alive n ≡ mem n v.collection
  pub pointing : (n : ℕ) → mem n v.collection ≡ true → v.attached n ≡ true
  pub made : (n : ℕ) → mem n v.collection ≡ true → n < v.next_id

fresh_next : (v : WeakVector) → Tracks v → mem v.next_id v.collection ≡ false
fresh_next v t = elim (Bool-cases (mem v.next_id v.collection)) [
  | inl e ↦ absurd (omega (arith, t.made v.next_id e))
  | inr e ↦ e
]

emplace-Tracks : (v : WeakVector) → Tracks v → Tracks (emplace v).1
unfolding emplace create_container
emplace-Tracks v t = record {
  once = Unique-snoc v.next_id v.collection (fresh_next v t) t.once;
  living = λ n. ground (arith, mem-snoc n v.next_id v.collection, t.living n);
  pointing = λ n h. ground (arith, mem-snoc n v.next_id v.collection, t.pointing n);
  made = λ n h. ground (arith, mem-snoc n v.next_id v.collection, t.made n);
}

released : ℕ → WeakVector → WeakVector
released n v = record v {
  alive = set_flag v.alive n false;
  attached = set_flag (set_flag v.attached n false) n false;
  collection = erase_if (λ m. m == n) v.collection;
}

release_lem :
    (n : ℕ) (v : WeakVector) → Tracks v → mem n v.collection ≡ true → release n v ≡ released n v
unfolding release disassociate remove_where released
release_lem n v t h = rw (t.pointing n h) (rw (find_if-mem n v.collection h) refl)

released-Tracks : (n : ℕ) (v : WeakVector) → Tracks v → Tracks (released n v)
unfolding released
released-Tracks n v t = record {
  once = Unique-erase_if n v.collection t.once;
  living = λ m. ground (arith, mem-erase_if m n v.collection t.once, t.living m);
  pointing = λ m h. ground (arith, mem-erase_if m n v.collection t.once, t.pointing m);
  made = λ m h. ground (arith, mem-erase_if m n v.collection t.once, t.made m);
}

module _ (v : WeakVector) (t : Tracks v) where
  use_vector-Tracks : (u : Use) → Tracks (use_vector u v)
  unfolding use_vector
  use_vector-Tracks emplacing = emplace-Tracks v t
  use_vector-Tracks (releasing n) = elim (Bool-cases (v.alive n)) [
    | inl e ↦
        let there : mem n v.collection ≡ true = sym (t.living n) ∙ e in
        rw e (subst Tracks (sym (release_lem n v t there)) (released-Tracks n v t))
    | inr e ↦ rw e t
  ]

  -- One use in the vector and in the list.
  use_vector-in_use :
      (u : Use) (us : List Use)
      → in_use us (use_vector u v).next_id (use_vector u v).collection
        ≡ in_use (u ∷ us) v.next_id v.collection
  unfolding use_vector released emplace create_container
  use_vector-in_use emplacing us = refl
  use_vector-in_use (releasing n) us = elim (Bool-cases (v.alive n)) [
    | inl e ↦
        let there : mem n v.collection ≡ true = sym (t.living n) ∙ e in
        let same : release n v ≡ released n v = release_lem n v t there in
        rw e (ap (λ x. in_use us x.next_id x.collection) same)
    | inr e ↦
        let absent : mem n v.collection ≡ false = sym (t.living n) ∙ e in
        rw e (ap (λ l. in_use us v.next_id l) (sym (erase_if-absent n v.collection absent)))
  ]

use_all-in_use :
    (us : List Use) (v : WeakVector)
    → Tracks v
    → Tracks (use_all us v) × ((use_all us v).collection ≡ in_use us v.next_id v.collection)
unfolding use_all
use_all-in_use [] v t = (t, refl)
use_all-in_use (u ∷ us) v t =
    let (t', e) = use_all-in_use us (use_vector u v) (use_vector-Tracks v t u) in
    (t', e ∙ use_vector-in_use v t u us)

locked-map :
    (v : WeakVector) (ns : List ℕ)
    → ((n : ℕ) → mem n ns ≡ true → v.alive n ≡ true)
    → locked v ns ≡ map some ns
unfolding mem
locked-map v [] h = refl
locked-map v (n ∷ ns) h =
    let here : v.alive n ≡ true = h n (ground arith) in
    let later = locked-map v ns (λ k m. h k (ground arith)) in rw here (ap (λ l. some n ∷ l) later)

-- Whatever objects are made in a vector and dropped, iterating over it meets exactly the objects in use,
-- oldest first, and no null pointer; and its size is their number.
pub use_all_lem :
    (us : List Use)
    → (elements (use_all us empty_vector) ≡ map some (in_use us 0 []))
      × (size (use_all us empty_vector) ≡ length (in_use us 0 []))
unfolding elements size mem
use_all_lem us =
    let nothing : Tracks empty_vector = record {
      once = tt;
      living = λ n. refl;
      pointing = λ n h. cc h;
      made = λ n h. absurd (cc h);
    } in
    let (t, e) = use_all-in_use us empty_vector nothing in
    let v = use_all us empty_vector in
    (locked-map v v.collection (λ n h. t.living n ∙ h) ∙ ap (map some) e, ap length e)

abbrev pub has_null : List (Option ℕ) → Bool
has_null [] = false
has_null (none ∷ os) = true
has_null (some n ∷ os) = has_null os

detach_all-keeps :
    (ns : List ℕ) (v : WeakVector)
    → ((detach_all ns v).collection ≡ v.collection) × ((detach_all ns v).alive ≡ v.alive)
detach_all-keeps [] v = (refl, refl)
detach_all-keeps (n ∷ ns) v = detach_all-keeps ns (detach n v)

detach_all_stays :
    (ns : List ℕ) (v : WeakVector) (k : ℕ)
    → v.attached k ≡ false
    → (detach_all ns v).attached k ≡ false
detach_all_stays [] v k h = h
detach_all_stays (n ∷ ns) v k h = detach_all_stays ns (detach n v) k (ground arith)

detach_all-mem :
    (ns : List ℕ) (v : WeakVector) (k : ℕ) → mem k ns ≡ true → (detach_all ns v).attached k ≡ false
unfolding mem
detach_all-mem [] v k h = cc
detach_all-mem (n ∷ ns) v k h = elim (Bool-cases (n == k)) [
  | inl e ↦ detach_all_stays ns (detach n v) k (rw e refl)
  | inr e ↦ detach_all-mem ns (detach n v) k (rw e at h)
]

has_null-locked :
    (v : WeakVector) (ns : List ℕ) (k : ℕ)
    → mem k ns ≡ true
    → v.alive k ≡ false
    → has_null (locked v ns) ≡ true
unfolding mem
has_null-locked v [] k h dead = cc
has_null-locked v (n ∷ ns) k h dead = ground (arith, has_null-locked v ns k, ==_iff n k)

release_detached :
    (n : ℕ) (v : WeakVector)
    → v.attached n ≡ false
    → release n v ≡ record v { alive = set_flag v.alive n false }
unfolding release disassociate
release_detached n v gone = rw gone refl

locked_alive : (v v' : WeakVector) (ns : List ℕ) → v.alive ≡ v'.alive → locked v ns ≡ locked v' ns
locked_alive v v' [] e = refl
locked_alive v v' (n ∷ ns) e =
    let here : lock v n ≡ lock v' n = ap (λ f. if f n then some n else none) e in
    let later = locked_alive v v' ns e in
    ap (λ o. o ∷ locked v ns) here ∙ ap (λ l. lock v' n ∷ l) later

-- remove_all leaves all elements in the vector; and one that is dropped afterwards stays there as a null
-- pointer, which still counts.
pub remove_all_lem :
    (v : WeakVector) (n : ℕ)
    → mem n v.collection ≡ true
    → (elements (remove_all v) ≡ elements v)
      × (has_null (elements (release n (remove_all v))) ≡ true)
      × (size (release n (remove_all v)) ≡ size v)
unfolding elements size remove_all
remove_all_lem v n h =
    let w : WeakVector = detach_all v.collection v in
    let (same, living) = detach_all-keeps v.collection v in
    let gone : w.attached n ≡ false = detach_all-mem v.collection v n h in
    let there : mem n w.collection ≡ true = ap (mem n) same ∙ h in
    let after : WeakVector = record w { alive = set_flag w.alive n false } in
    let ran : release n w ≡ after = release_detached n w gone in
    (
      locked_alive w v w.collection living ∙ ap (locked v) same,
      ap (λ x. has_null (locked x x.collection)) ran
          ∙ has_null-locked after w.collection n there (ground arith),
      ap (λ x. length x.collection) ran ∙ ap length same,
    )
