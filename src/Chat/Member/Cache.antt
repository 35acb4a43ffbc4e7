-- ===== src/Chat/Member/Cache.antt =====
-- The cached sets of a room, recomputed from the map of members, and how they follow the map's
-- operations. The sets are `_cached_users` and its like of module/chat/include/Room.hpp.
use social_gaming_platform.Prelude.{
  ℕ, suc, ◌≤◌, ◌≡◌, refl, Bool, some, none, List, [], ◌∷◌, arith, if◌then◌else◌, length, count,
}
use social_gaming_platform.Std.PtrSet
use social_gaming_platform.Std.PtrSet.{MemberPtr, Sorted, Avoids}
use social_gaming_platform.Chat.Member.{Member, ptr}
use social_gaming_platform.Chat.Member.Map
use social_gaming_platform.Chat.Member.Map.{FreshTime, Distinct}

-- The pointers to the entries that pass a test, by join time.
unfoldable pub cache_of : (Member → Bool) → List Member → List MemberPtr
cache_of p [] = []
cache_of p (m ∷ ms) = if p m then PtrSet.insert (ptr m) (cache_of p ms) else cache_of p ms

module _ (p : Member → Bool) where
  pub cache_of-Sorted : (ms : List Member) → Sorted 0 (cache_of p ms)
  unfolding cache_of
  cache_of-Sorted [] = tt
  cache_of-Sorted (m ∷ ms) =
      ground (arith, cache_of-Sorted ms, PtrSet.insert-Sorted 0 (ptr m) (cache_of p ms))

  pub cache_of-Avoids : (t : ℕ) (ms : List Member) → FreshTime t ms → Avoids t (cache_of p ms)
  unfolding cache_of
  cache_of-Avoids t [] f = tt
  cache_of-Avoids t (m ∷ ms) f =
      ground (arith, cache_of-Avoids t ms, PtrSet.insert-Avoids t (ptr m) (cache_of p ms))

  -- Adding an entry adds its pointer, if it passes.
  pub cache_of-insert :
      (m : Member) (ms : List Member)
      → Map.find m.user ms ≡ none
      → FreshTime m.since ms
      → cache_of p (Map.insert m ms)
        ≡ (if p m then PtrSet.insert (ptr m) (cache_of p ms) else cache_of p ms)
  unfolding cache_of Map.insert Map.find
  cache_of-insert m [] n f = refl
  cache_of-insert m (x ∷ ms) n f =
      ground (arith, cache_of-insert m ms, PtrSet.insert_comm (ptr x) (ptr m) (cache_of p ms))

  -- Erasing an entry erases its pointer, if it passes.
  pub cache_of-erase :
      (m : Member) (ms : List Member)
      → Map.find m.user ms ≡ some m
      → Distinct ms
      → cache_of p (Map.erase m.user ms)
        ≡ (if p m then PtrSet.erase (ptr m) (cache_of p ms) else cache_of p ms)
  unfolding cache_of Map.erase Map.find
  cache_of-erase m [] n d = ground arith
  cache_of-erase m (x ∷ ms) n d = ground (
    arith,
    cache_of-erase m ms,
    Map.find-FreshTime m.user x.since ms m,
    PtrSet.erase-insert (ptr x) (cache_of p ms),
    cache_of-Avoids x.since ms,
    PtrSet.erase-insert_ne (ptr m) (ptr x) (cache_of p ms) 0,
    cache_of-Sorted ms,
  )

  -- A write through a pointer is an erasure and an insertion.
  pub cache_of-assign :
      (m m' : Member) (ms : List Member)
      → Map.find m'.user ms ≡ some m
      → m'.since ≡ m.since
      → Distinct ms
      → cache_of p (Map.assign m' ms) ≡ (
          if p m'
          then PtrSet.insert (ptr m') (cache_of p (Map.erase m'.user ms))
          else cache_of p (Map.erase m'.user ms))
  unfolding cache_of Map.erase Map.find Map.assign
  cache_of-assign m m' [] n e d = ground arith
  cache_of-assign m m' (x ∷ ms) n e d = ground (
    arith,
    cache_of-assign m m' ms,
    Map.find-FreshTime m'.user x.since ms m,
    PtrSet.insert_comm (ptr x) (ptr m') (cache_of p (Map.erase m'.user ms)),
  )

  -- The set after an entry is taken out, changed, and put back.
  pub cache_of-guarded :
      (m m' : Member) (ms : List Member)
      → Map.find m.user ms ≡ some m
      → m'.user ≡ m.user
      → m'.since ≡ m.since
      → Distinct ms
      → cache_of p (Map.assign m' ms) ≡ (
          let rest = if p m then PtrSet.erase (ptr m) (cache_of p ms) else cache_of p ms in
          if p m' then PtrSet.insert (ptr m') rest else rest)
  cache_of-guarded m m' ms found eu es d =
      rw (cache_of-assign m m' ms (rw eu found) es d, eu, cache_of-erase m ms found d) refl

  -- A change that the test does not see changes neither set nor count.
  pub cache_of-assign_same :
      (m m' : Member) (ms : List Member)
      → Map.find m'.user ms ≡ some m
      → m'.since ≡ m.since
      → p m' ≡ p m
      → cache_of p (Map.assign m' ms) ≡ cache_of p ms
  unfolding cache_of Map.find Map.assign
  cache_of-assign_same m m' [] n e h = refl
  cache_of-assign_same m m' (x ∷ ms) n e h = ground (arith, cache_of-assign_same m m' ms)

  pub count-assign_same :
      (m m' : Member) (ms : List Member)
      → Map.find m'.user ms ≡ some m
      → p m' ≡ p m
      → count p (Map.assign m' ms) ≡ count p ms
  unfolding Map.find Map.assign
  count-assign_same m m' [] n h = refl
  count-assign_same m m' (x ∷ ms) n h = ground (arith, count-assign_same m m' ms)

  -- The cached set has as many elements as entries pass.
  pub length-cache_of : (ms : List Member) → Distinct ms → length (cache_of p ms) ≡ count p ms
  unfolding cache_of
  length-cache_of [] d = refl
  length-cache_of (m ∷ ms) d = ground (
    arith,
    length-cache_of ms,
    PtrSet.length-insert (ptr m) (cache_of p ms),
    cache_of-Avoids m.since ms,
  )

  pub count-insert :
      (m : Member) (ms : List Member)
      → Map.find m.user ms ≡ none
      → count p (Map.insert m ms) ≡ (if p m then suc (count p ms) else count p ms)
  unfolding Map.insert Map.find
  count-insert m [] n = refl
  count-insert m (x ∷ ms) n = ground (arith, count-insert m ms)

  pub count-erase :
      (m : Member) (ms : List Member)
      → Map.find m.user ms ≡ some m
      → count p ms
        ≡ (if p m then suc (count p (Map.erase m.user ms)) else count p (Map.erase m.user ms))
  unfolding Map.erase Map.find
  count-erase m [] n = ground arith
  count-erase m (x ∷ ms) n = ground (arith, count-erase m ms)

  pub count-assign :
      (m m' : Member) (ms : List Member)
      → Map.find m'.user ms ≡ some m
      → count p (Map.assign m' ms)
        ≡ (if p m' then suc (count p (Map.erase m'.user ms)) else count p (Map.erase m'.user ms))
  unfolding Map.erase Map.find Map.assign
  count-assign m m' [] n = ground arith
  count-assign m m' (x ∷ ms) n = ground (arith, count-assign m m' ms)

  pub count-le-length : (ms : List Member) → count p ms ≤ length ms
  count-le-length [] = omega arith
  count-le-length (m ∷ ms) = ground (arith, count-le-length ms)
