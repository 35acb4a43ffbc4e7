-- ===== src/Std/PtrSet.antt =====
-- std::set<MemberPtr<T>> (module/chat/include/Room.hpp), ordered by Member::operator<: the join times.
use social_gaming_platform.Prelude.{
  ℕ, suc, ◌+◌, ◌≤◌, ◌<◌, ◌≡◌, refl, ◌≢◌, List, [], ◌∷◌, arith, ltb, ◌==◌, if◌then◌else◌, length,
}

-- A pointer to the entry of a user in the map of members, with the pointee's join time, which no
-- operation changes.
pub record MemberPtr : Type 0 where
  pub since : ℕ
  pub id : ℕ

-- `insert` does nothing where the set has an equivalent element.
unfoldable pub insert : MemberPtr → List MemberPtr → List MemberPtr
insert p [] = p ∷ []
insert p (q ∷ s) =
    if ltb p.since q.since then p ∷ q ∷ s else if p.since == q.since then q ∷ s else q ∷ insert p s

-- `erase` by key removes the element that is equivalent.
unfoldable pub erase : MemberPtr → List MemberPtr → List MemberPtr
erase p [] = []
erase p (q ∷ s) = if p.since == q.since then s else q ∷ erase p s

-- The join times rise along the set, from `b` on.
abbrev pub Sorted : ℕ → List MemberPtr → Type 0
Sorted b [] = Unit {0}
Sorted b (q ∷ s) = (b ≤ q.since) × Sorted (suc q.since) s

-- No element joined at `t`.
abbrev pub Avoids : ℕ → List MemberPtr → Type 0
Avoids t [] = Unit {0}
Avoids t (q ∷ s) = (q.since ≢ t) × Avoids t s

pub Sorted-mono : (a b : ℕ) (s : List MemberPtr) → a ≤ b → Sorted b s → Sorted a s
Sorted-mono a b [] h k = tt
Sorted-mono a b (q ∷ s) h k = (omega arith, k.1)

pub insert-Sorted :
    (b : ℕ) (p : MemberPtr) (s : List MemberPtr) → b ≤ p.since → Sorted b s → Sorted b (insert p s)
unfolding insert
insert-Sorted b p [] h k = (h, tt)
insert-Sorted b p (q ∷ s) h k = ground (arith, insert-Sorted (suc q.since) p s)

pub insert-Avoids :
    (t : ℕ) (p : MemberPtr) (s : List MemberPtr) → p.since ≢ t → Avoids t s → Avoids t (insert p s)
unfolding insert
insert-Avoids t p [] h k = (h, tt)
insert-Avoids t p (q ∷ s) h k = ground (arith, insert-Avoids t p s)

pub Avoids-below : (t b : ℕ) (s : List MemberPtr) → t < b → Sorted b s → Avoids t s
Avoids-below t b [] h k = tt
Avoids-below t b (q ∷ s) h k = (omega arith, Avoids-below t (suc q.since) s (omega arith) k.1)

pub erase-avoided : (p : MemberPtr) (s : List MemberPtr) → Avoids p.since s → erase p s ≡ s
unfolding erase
erase-avoided p [] a = refl
erase-avoided p (q ∷ s) a = ground (arith, erase-avoided p s)

-- Erasing what was just inserted gives the set back.
pub erase-insert :
    (p : MemberPtr) (s : List MemberPtr) → Avoids p.since s → erase p (insert p s) ≡ s
unfolding erase insert
erase-insert p [] a = ground arith
erase-insert p (q ∷ s) a = ground (arith, erase-insert p s)

insert_head :
    (p q : MemberPtr) (s : List MemberPtr)
    → p.since < q.since
    → Sorted q.since s
    → insert p s ≡ p ∷ s
unfolding insert
insert_head p q [] h k = refl
insert_head p q (r ∷ s) h k = ground arith

pub erase-insert_ne :
    (p q : MemberPtr) (s : List MemberPtr) (b : ℕ)
    → p.since ≢ q.since
    → Sorted b s
    → erase p (insert q s) ≡ insert q (erase p s)
unfolding erase insert
erase-insert_ne p q [] b h k = ground arith
erase-insert_ne p q (r ∷ s) b h k = ground (
  arith,
  erase-insert_ne p q s (suc r.since),
  insert_head q r s,
  Sorted-mono r.since (suc r.since) s,
)

pub insert_comm :
    (p q : MemberPtr) (s : List MemberPtr)
    → p.since ≢ q.since
    → insert p (insert q s) ≡ insert q (insert p s)
unfolding insert
insert_comm p q [] h = ground arith
insert_comm p q (r ∷ s) h = ground (arith, insert_comm p q s)

pub length-insert :
    (p : MemberPtr) (s : List MemberPtr) → Avoids p.since s → length (insert p s) ≡ length s + 1
unfolding insert
length-insert p [] a = omega arith
length-insert p (q ∷ s) a = ground (arith, length-insert p s)
