-- ===== src/Chat/Member/Map.antt =====
-- std::map<User::Id, Member> (module/chat/include/Room.hpp, `_members`): the entries in the order of
-- the ids. A pointer to an entry stays good until the entry is erased, so it is read by `find`.
use social_gaming_platform.Prelude.{
  ℕ, ◌+◌, ◌≡◌, refl, ◌≢◌, Option, none, some, List, [], ◌∷◌, arith, ltb, ◌==◌, if◌then◌else◌,
  length,
}
use social_gaming_platform.Chat.Member.{Member}

unfoldable pub find : ℕ → List Member → Option Member
find u [] = none
find u (m ∷ ms) = if m.user == u then some m else find u ms

-- `insert` keeps an entry that is there.
unfoldable pub insert : Member → List Member → List Member
insert m [] = m ∷ []
insert m (x ∷ ms) =
    if ltb m.user x.user then m ∷ x ∷ ms else if m.user == x.user then x ∷ ms else x ∷ insert m ms

unfoldable pub erase : ℕ → List Member → List Member
erase u [] = []
erase u (m ∷ ms) = if m.user == u then ms else m ∷ erase u ms

-- A write through a pointer to the entry of the same user.
unfoldable pub assign : Member → List Member → List Member
assign m [] = []
assign m (x ∷ ms) = if x.user == m.user then m ∷ ms else x ∷ assign m ms

-- No entry joined at `t`; no entry is of the user `u`.
abbrev pub FreshTime : ℕ → List Member → Type 0
FreshTime t [] = Unit {0}
FreshTime t (m ∷ ms) = (m.since ≢ t) × FreshTime t ms

abbrev pub FreshUser : ℕ → List Member → Type 0
FreshUser u [] = Unit {0}
FreshUser u (m ∷ ms) = (m.user ≢ u) × FreshUser u ms

-- Users and join times are pairwise different.
abbrev pub Distinct : List Member → Type 0
Distinct [] = Unit {0}
Distinct (m ∷ ms) = FreshTime m.since ms × FreshUser m.user ms × Distinct ms

pub FreshUser-find : (u : ℕ) (ms : List Member) → find u ms ≡ none → FreshUser u ms
unfolding find
FreshUser-find u [] h = tt
FreshUser-find u (m ∷ ms) h = ground (arith, FreshUser-find u ms)

pub find-FreshUser : (u : ℕ) (ms : List Member) → FreshUser u ms → find u ms ≡ none
unfolding find
find-FreshUser u [] h = refl
find-FreshUser u (m ∷ ms) h = ground (arith, find-FreshUser u ms)

pub find-user : (u : ℕ) (ms : List Member) (m : Member) → find u ms ≡ some m → m.user ≡ u
unfolding find
find-user u [] m h = ground arith
find-user u (x ∷ ms) m h = ground (arith, find-user u ms m)

pub find-FreshTime :
    (u t : ℕ) (ms : List Member) (m : Member) → find u ms ≡ some m → FreshTime t ms → m.since ≢ t
unfolding find
find-FreshTime u t [] m h f = ground arith
find-FreshTime u t (x ∷ ms) m h f = ground (arith, find-FreshTime u t ms m)

pub insert-FreshTime :
    (t : ℕ) (m : Member) (ms : List Member)
    → m.since ≢ t
    → FreshTime t ms
    → FreshTime t (insert m ms)
unfolding insert
insert-FreshTime t m [] h f = (h, tt)
insert-FreshTime t m (x ∷ ms) h f = ground (arith, insert-FreshTime t m ms)

pub insert-FreshUser :
    (u : ℕ) (m : Member) (ms : List Member)
    → m.user ≢ u
    → FreshUser u ms
    → FreshUser u (insert m ms)
unfolding insert
insert-FreshUser u m [] h f = (h, tt)
insert-FreshUser u m (x ∷ ms) h f = ground (arith, insert-FreshUser u m ms)

pub insert-Distinct :
    (m : Member) (ms : List Member)
    → FreshTime m.since ms
    → FreshUser m.user ms
    → Distinct ms
    → Distinct (insert m ms)
unfolding insert
insert-Distinct m [] ft fu d = (tt, tt, tt)
insert-Distinct m (x ∷ ms) ft fu d =
    ground
      (arith, insert-Distinct m ms, insert-FreshTime x.since m ms, insert-FreshUser x.user m ms)

pub erase-FreshTime : (t u : ℕ) (ms : List Member) → FreshTime t ms → FreshTime t (erase u ms)
unfolding erase
erase-FreshTime t u [] f = tt
erase-FreshTime t u (x ∷ ms) f = ground (arith, erase-FreshTime t u ms)

pub erase-FreshUser : (v u : ℕ) (ms : List Member) → FreshUser v ms → FreshUser v (erase u ms)
unfolding erase
erase-FreshUser v u [] f = tt
erase-FreshUser v u (x ∷ ms) f = ground (arith, erase-FreshUser v u ms)

pub erase-Distinct : (u : ℕ) (ms : List Member) → Distinct ms → Distinct (erase u ms)
unfolding erase
erase-Distinct u [] d = tt
erase-Distinct u (x ∷ ms) d =
    ground (arith, erase-Distinct u ms, erase-FreshTime x.since u ms, erase-FreshUser x.user u ms)

-- The entry that is erased is gone.
pub find-erase : (u : ℕ) (ms : List Member) → Distinct ms → find u (erase u ms) ≡ none
unfolding find erase
find-erase u [] d = refl
find-erase u (m ∷ ms) d = ground (arith, find-erase u ms, find-FreshUser u ms)

pub find-erase_ne : (u v : ℕ) (ms : List Member) → u ≢ v → find u (erase v ms) ≡ find u ms
unfolding find erase
find-erase_ne u v [] h = refl
find-erase_ne u v (m ∷ ms) h = ground (arith, find-erase_ne u v ms)

-- A read after a write through a pointer to an entry that is there.
pub find-assign :
    (u : ℕ) (m : Member) (ms : List Member)
    → find m.user ms ≢ none
    → find u (assign m ms) ≡ (if m.user == u then some m else find u ms)
unfolding find assign
find-assign u m [] h = ground arith
find-assign u m (x ∷ ms) h = ground (arith, find-assign u m ms)

pub find-insert :
    (u : ℕ) (m : Member) (ms : List Member)
    → find m.user ms ≡ none
    → find u (insert m ms) ≡ (if m.user == u then some m else find u ms)
unfolding find insert
find-insert u m [] h = ground arith
find-insert u m (x ∷ ms) h = ground (arith, find-insert u m ms)

pub assign-FreshTime :
    (t : ℕ) (m : Member) (ms : List Member)
    → m.since ≢ t
    → FreshTime t ms
    → FreshTime t (assign m ms)
unfolding assign
assign-FreshTime t m [] h f = tt
assign-FreshTime t m (x ∷ ms) h f = ground (arith, assign-FreshTime t m ms)

pub assign-FreshUser :
    (u : ℕ) (m : Member) (ms : List Member) → FreshUser u ms → FreshUser u (assign m ms)
unfolding assign
assign-FreshUser u m [] f = tt
assign-FreshUser u m (x ∷ ms) f = ground (arith, assign-FreshUser u m ms)

-- A write that leaves user and join time alone keeps the map well formed.
pub assign-Distinct :
    (m m' : Member) (ms : List Member)
    → find m'.user ms ≡ some m
    → m'.since ≡ m.since
    → Distinct ms
    → Distinct (assign m' ms)
unfolding find assign
assign-Distinct m m' [] h e d = tt
assign-Distinct m m' (x ∷ ms) h e d = ground (
  arith,
  assign-Distinct m m' ms,
  assign-FreshTime x.since m' ms,
  assign-FreshUser x.user m' ms,
  find-FreshTime m'.user x.since ms m,
)

pub length-insert :
    (m : Member) (ms : List Member) → find m.user ms ≡ none → length (insert m ms) ≡ length ms + 1
unfolding find insert
length-insert m [] h = omega arith
length-insert m (x ∷ ms) h = ground (arith, length-insert m ms)

pub length-erase :
    (u : ℕ) (ms : List Member) (m : Member)
    → find u ms ≡ some m
    → length (erase u ms) + 1 ≡ length ms
unfolding find erase
length-erase u [] m h = ground arith
length-erase u (x ∷ ms) m h = ground (arith, length-erase u ms m)

pub length-assign : (m : Member) (ms : List Member) → length (assign m ms) ≡ length ms
unfolding assign
length-assign m [] = refl
length-assign m (x ∷ ms) = ground (arith, length-assign m ms)
