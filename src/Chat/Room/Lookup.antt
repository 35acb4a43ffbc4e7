-- ===== src/Chat/Room/Lookup.antt =====
-- The lookups of a room by user (Room::find_player and its like, module/chat/src/Room.cpp) against the
-- map of members.
use social_gaming_platform.Prelude.{
  ℕ, Bool, true, false, Option, none, some, List, [], ◌∷◌, ◌≡◌, refl, arith, ◌==◌, if◌then◌else◌,
  ap, ◌∙◌,
}
use social_gaming_platform.Std.PtrSet
use social_gaming_platform.Std.PtrSet.{MemberPtr, Avoids}
use social_gaming_platform.Chat.Member.{Member, ptr}
use social_gaming_platform.Chat.Member.Map
use social_gaming_platform.Chat.Member.Cache.{cache_of, cache_of-Avoids}
use social_gaming_platform.Chat.Room.{
  Room, find_by_id, find_player, find_spectator, find_user, is_game_active,
}
use social_gaming_platform.Chat.Room.Invariant.{Inv, anyone, is_active, is_watching}

find_by_id-insert :
    (u : ℕ) (q : MemberPtr) (s : List MemberPtr)
    → find_by_id q.id s ≡ none
    → Avoids q.since s
    → find_by_id u (PtrSet.insert q s) ≡ (if q.id == u then some q else find_by_id u s)
unfolding find_by_id PtrSet.insert
find_by_id-insert u q [] n a = refl
find_by_id-insert u q (p ∷ s) n a = ground (arith, find_by_id-insert u q s)

-- The pointer to an entry, if the entry passes a test.
abbrev pub passing : (Member → Bool) → Option Member → Option MemberPtr
passing p none = none
passing p (some m) = if p m then some (ptr m) else none

pub find_by_id-cache_of :
    (p : Member → Bool) (u : ℕ) (ms : List Member)
    → Map.Distinct ms
    → find_by_id u (cache_of p ms) ≡ passing p (Map.find u ms)
unfolding find_by_id cache_of Map.find
find_by_id-cache_of p u [] d = refl
find_by_id-cache_of p u (m ∷ ms) d = ground (
  arith,
  find_by_id-cache_of p u ms d.2,
  find_by_id-cache_of p m.user ms d.2,
  Map.find-FreshUser m.user ms d.1,
  find_by_id-insert u (ptr m) (cache_of p ms),
  cache_of-Avoids p m.since ms d.0,
)

module _ {G : Type 0} {r : Room G} (v : Inv r) (u : ℕ) where
  -- In a well-formed room the searches of the cached sets find exactly the entry of the user, and find it
  -- under these conditions: as a user always, as a player if the status is player and the member is
  -- not disqualified, as a spectator always between games, and in a game if the member is
  -- disqualified or has another status.
  pub lookups_lem :
      (find_user u r ≡ passing anyone (Map.find u r.members))
      × (find_player u r ≡ passing is_active (Map.find u r.members))
      × (find_spectator u r
          ≡ passing (if is_game_active r then is_watching else anyone) (Map.find u r.members))
  unfolding find_user find_player find_spectator
  lookups_lem = (
    ap (find_by_id u) v.users_ok ∙ find_by_id-cache_of anyone u r.members v.distinct,
    ap (find_by_id u) v.players_ok ∙ find_by_id-cache_of is_active u r.members v.distinct,
    spectator_case r.game_started,
  )
    where
      spectator_case :
          (b : Bool)
          → find_by_id u (if b then r.cached_spectators else r.cached_users_as_spectators)
            ≡ passing (if b then is_watching else anyone) (Map.find u r.members)
      spectator_case true =
          ap (find_by_id u) v.spectators_ok ∙ find_by_id-cache_of is_watching u r.members v.distinct
      spectator_case false =
          ap (find_by_id u) v.users_as_spectators_ok
          ∙ find_by_id-cache_of anyone u r.members v.distinct
