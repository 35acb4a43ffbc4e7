-- ===== src/Chat/Room/Waitlist.antt =====
-- Room::flush_waitlist, Room::set_player_limit, Room::disqualify_player and Room::reset_players
-- (module/chat/src/Room.cpp): the methods that move members between the cached sets.
use social_gaming_platform.Prelude.{
  ℕ, ◌+◌, ◌-◌, ◌%◌, ◌^◌, Bool, true, false, ◌||◌, none, some, List, [], ◌∷◌, ltb, leb, ◌==◌,
  if◌then◌else◌, length, take, filter, codes,
}
use social_gaming_platform.Run.{
  Run, ok, undefined, gets, throw_if, ◌>>=◌, ◌>>◌, chat_exception, not_allowed_option,
}
use social_gaming_platform.Std.PtrSet.{MemberPtr}
use social_gaming_platform.Chat.Member.{
  Member, Status, player, player_waitlist, is_waitlisted, is_player, is_disqualified,
}
use social_gaming_platform.Chat.Member.Map
use social_gaming_platform.Chat.Room.{
  Room, size_mod, is_game_active, player_count, spectator_count, spectators,
}
use social_gaming_platform.Chat.Room.Caches.{guarded}

abbrev pub with_status : Status → Member → Member
with_status s m = record m { status = s }

abbrev pub with_disqualified : Bool → Member → Member
with_disqualified b m = record m { disqualified = b }

-- `ssize_t overflow = count - limit;`: the wrapped difference, read as a signed number; 0 where that is
-- not positive.
unfoldable pub overflow : ℕ → ℕ → ℕ
overflow n limit = let d = (n + size_mod - limit) % size_mod in if ltb d (2 ^ 63) then d else 0

module _ {G : Type 0} where
  -- `MemberGuard guard(this, *member); member->... = ...;` for the member that a pointer leads to.
  -- A pointer held by the room leads to an entry of its map, so the case `none` does not arise.
  unfoldable pub change : (Member → Member) → ℕ → Room G → Room G
  unfolding Map.find
  change f u r = elim (Map.find u r.members) [ none ↦ r | some m ↦ guarded f m r ]

  unfoldable pub points_to_waitlisted : Room G → MemberPtr → Bool
  unfolding Map.find is_waitlisted
  points_to_waitlisted r p = elim (Map.find p.id r.members) [
    | none ↦ false
    | some m ↦ is_waitlisted m
  ]

  -- The second loop of flush_waitlist, over the queue.
  unfoldable pub flush_queue : List MemberPtr → Room G → Room G
  unfolding change player_count
  flush_queue [] r = r
  flush_queue (p ∷ queue) r =
      let rest = flush_queue queue (change (with_status player) p.id r) in
      if ltb (player_count r) r.player_limit then rest else r

  unfoldable pub flush_waitlist : Room G → Room G
  unfolding flush_queue points_to_waitlisted is_game_active spectator_count spectators
  flush_waitlist r =
      if is_game_active r || spectator_count r == 0
      then r
      else flush_queue (filter (points_to_waitlisted r) (spectators r)) r

  unfoldable pub waitlist_all : List MemberPtr → Room G → Room G
  unfolding change
  waitlist_all [] r = r
  waitlist_all (p ∷ ps) r = waitlist_all ps (change (with_status player_waitlist) p.id r)

  -- The first `k` pointers of the players' set; `std::next` past the end is undefined.
  unfoldable pub waitlist_first : ℕ → Run (Room G) (Unit {0})
  unfolding waitlist_all
  waitlist_first k r =
      if leb k (length r.cached_players)
      then ok tt (waitlist_all (take k r.cached_players) r)
      else undefined

  -- The new limit is not stored.
  unfoldable pub set_player_limit : ℕ → Run (Room G) (Unit {0})
  set_player_limit limit = do
    throw_if (ltb limit 1)
        (chat_exception not_allowed_option (some (codes "Player limit must be positive.")))
    n ← gets player_count
    waitlist_first (overflow n limit)

  unfoldable pub disqualify_player : ℕ → Room G → Room G
  unfolding Map.find is_player
  disqualify_player u r = elim (Map.find u r.members) [
    | none ↦ r
    | some m ↦ if is_player m then guarded (with_disqualified true) m r else r
  ]

  -- The body of the loop of reset_players, for one entry.
  unfoldable pub reset_player : ℕ → Room G → Room G
  unfolding Map.find
  reset_player u r = elim (Map.find u r.members) [
    | none ↦ r
    | some m ↦ if is_disqualified m then guarded (with_disqualified false) m r else r
  ]

  unfoldable pub reset_all : List Member → Room G → Room G
  unfolding reset_player
  reset_all [] r = r
  reset_all (m ∷ ms) r = reset_all ms (reset_player m.user r)

  unfoldable pub reset_players : Room G → Room G
  unfolding reset_all
  reset_players r = reset_all r.members r
