-- ===== src/Chat/Room/Caches.antt =====
-- Room::_cached_remove, Room::_cached_add and Room::MemberGuard (module/chat/src/Room.cpp).
use social_gaming_platform.Prelude.{◌+◌, ◌-◌, ◌%◌, ◌&&◌, ◌||◌, if◌then◌else◌, not}
use social_gaming_platform.Std.PtrSet
use social_gaming_platform.Chat.Member.{Member, is_player, is_spectator, is_disqualified, ptr}
use social_gaming_platform.Chat.Member.Map
use social_gaming_platform.Chat.Room.{Room, size_mod}

module _ {G : Type 0} where
  unfoldable pub cached_remove : Member → Room G → Room G
  unfolding is_player is_spectator
  cached_remove m r = record r {
    cached_users = PtrSet.erase (ptr m) r.cached_users;
    cached_users_as_spectators = PtrSet.erase (ptr m) r.cached_users_as_spectators;
    players_disqualified =
        if is_disqualified m
        then (r.players_disqualified + size_mod - 1) % size_mod
        else r.players_disqualified;
    cached_spectators =
        if is_spectator m || is_disqualified m
        then PtrSet.erase (ptr m) r.cached_spectators
        else r.cached_spectators;
    cached_players =
        if is_player m && not (is_disqualified m)
        then PtrSet.erase (ptr m) r.cached_players
        else r.cached_players;
  }

  unfoldable pub cached_add : Member → Room G → Room G
  unfolding is_player is_spectator
  cached_add m r = record r {
    cached_users = PtrSet.insert (ptr m) r.cached_users;
    cached_users_as_spectators = PtrSet.insert (ptr m) r.cached_users_as_spectators;
    players_disqualified =
        if is_disqualified m
        then (r.players_disqualified + 1) % size_mod
        else r.players_disqualified;
    cached_spectators =
        if is_spectator m || is_disqualified m
        then PtrSet.insert (ptr m) r.cached_spectators
        else r.cached_spectators;
    cached_players =
        if is_player m && not (is_disqualified m)
        then PtrSet.insert (ptr m) r.cached_players
        else r.cached_players;
  }

  -- A block under a MemberGuard: the constructor takes the entry `m` out of the cached sets, the block
  -- changes it by `f`, and the destructor puts it back.
  unfoldable pub guarded : (Member → Member) → Member → Room G → Room G
  unfolding cached_remove cached_add Map.assign
  guarded f m r =
      let r' = cached_remove m r in
      cached_add (f m) (record r' { members = Map.assign (f m) r'.members })
