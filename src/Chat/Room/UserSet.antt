-- ===== src/Chat/Room/UserSet.antt =====
-- The set of pointers to the users of a room (module/chat/include/Room.hpp): whom it leads to.
use social_gaming_platform.Prelude.{List, [], ◌∷◌, ◌≢◌, refl, some, arith}
use social_gaming_platform.Std.PtrSet
use social_gaming_platform.Std.PtrSet.{MemberPtr}
use social_gaming_platform.Chat.Member.{Member, ptr}
use social_gaming_platform.Chat.Member.Map
use social_gaming_platform.Chat.Member.Cache.{cache_of}
use social_gaming_platform.Chat.Room.Invariant.{anyone}
use social_gaming_platform.Chat.Room.Good.{Owned}

-- The users' set is in the map: each of its pointers leads to an entry with its join time.
unfoldable pub AllOwned : List MemberPtr → List Member → Type 0
AllOwned [] ms = Unit {0}
AllOwned (p ∷ s) ms = Owned (some p) ms × AllOwned s ms

AllOwned-insert :
    (p : MemberPtr) (s : List MemberPtr) (ms : List Member)
    → Owned (some p) ms
    → AllOwned s ms
    → AllOwned (PtrSet.insert p s) ms
unfolding AllOwned PtrSet.insert
AllOwned-insert p [] ms h k = (h, tt)
AllOwned-insert p (q ∷ s) ms h k = ground (arith, AllOwned-insert p s ms)

AllOwned-cons :
    (m : Member) (s : List MemberPtr) (ms : List Member)
    → Map.FreshUser m.user ms
    → AllOwned s ms
    → AllOwned s (m ∷ ms)
unfolding AllOwned Map.find
AllOwned-cons m [] ms f h = tt
AllOwned-cons m (p ∷ s) ms f ((x, e, t), k) =
    ((x, ground (arith, Map.find-FreshUser m.user ms f), t), AllOwned-cons m s ms f k)

pub AllOwned-users : (ms : List Member) → Map.Distinct ms → AllOwned (cache_of anyone ms) ms
unfolding AllOwned cache_of Map.find
AllOwned-users [] d = tt
AllOwned-users (m ∷ ms) d =
    AllOwned-insert (ptr m) (cache_of anyone ms) (m ∷ ms) (m, ground arith, refl)
      (AllOwned-cons m (cache_of anyone ms) ms d.1 (AllOwned-users ms d.2))

insert-ne-nil : (p : MemberPtr) (s : List MemberPtr) → PtrSet.insert p s ≢ []
unfolding PtrSet.insert
insert-ne-nil p [] = ground arith
insert-ne-nil p (q ∷ s) = ground arith

pub users-ne-nil : (m : Member) (ms : List Member) → cache_of anyone (m ∷ ms) ≢ []
unfolding cache_of
users-ne-nil m ms = insert-ne-nil (ptr m) (cache_of anyone ms)
