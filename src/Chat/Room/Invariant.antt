-- ===== src/Chat/Room/Invariant.antt =====
-- What the cached sets and the counter of a room hold, and that the guard of `Caches` keeps it.
use social_gaming_platform.Prelude.{
  ℕ, ◌+◌, ◌<◌, ◌≡◌, refl, Bool, true, not, ◌&&◌, ◌||◌, some, none, List, arith, length, count, sym,
  ◌∙◌, ap,
}
use social_gaming_platform.Chat.Member.{Member, is_player, is_spectator, is_disqualified}
use social_gaming_platform.Chat.Member.Map
use social_gaming_platform.Chat.Member.Map.{Distinct, FreshTime}
use social_gaming_platform.Chat.Member.Cache
use social_gaming_platform.Chat.Member.Cache.{cache_of}
use social_gaming_platform.Chat.Room.{Room, make_room, size_mod}
use social_gaming_platform.Chat.Room.Caches.{cached_remove, cached_add, guarded}

-- The tests by which a member belongs in a set.
abbrev pub anyone : Member → Bool
anyone m = true

abbrev pub is_active : Member → Bool
is_active m = is_player m && not (is_disqualified m)

abbrev pub is_watching : Member → Bool
is_watching m = is_spectator m || is_disqualified m

-- Every cached set is what the map of members determines, and the counter counts.
pub record Inv {G : Type 0} (r : Room G) : Type 0 where
  pub distinct : Distinct r.members
  pub bounded : length r.members < size_mod
  pub users_ok : r.cached_users ≡ cache_of anyone r.members
  pub users_as_spectators_ok : r.cached_users_as_spectators ≡ cache_of anyone r.members
  pub players_ok : r.cached_players ≡ cache_of is_active r.members
  pub spectators_ok : r.cached_spectators ≡ cache_of is_watching r.members
  pub disqualified_ok : r.players_disqualified ≡ count is_disqualified r.members

module _ {G : Type 0} where
  pub make_room-Inv :
      (id : List ℕ) (now : ℕ) (garbage : Bool) → Inv (make_room {G = G} id now garbage)
  unfolding make_room cache_of
  make_room-Inv id now garbage = record {
    distinct = tt;
    bounded = omega arith;
    users_ok = refl;
    users_as_spectators_ok = refl;
    players_ok = refl;
    spectators_ok = refl;
    disqualified_ok = refl;
  }

  -- The bookkeeping of a member who leaves.
  pub cached_remove-Inv :
      (m : Member) (r : Room G)
      → Map.find m.user r.members ≡ some m
      → Inv r
      → Inv (record (cached_remove m r) { members = Map.erase m.user r.members })
  unfolding cached_remove
  cached_remove-Inv m r found v = record {
    distinct = Map.erase-Distinct m.user r.members v.distinct;
    bounded = omega (arith, v.bounded, Map.length-erase m.user r.members m found);
    users_ok = rw v.users_ok (sym (Cache.cache_of-erase anyone m r.members found v.distinct));
    users_as_spectators_ok =
        rw v.users_as_spectators_ok
          (sym (Cache.cache_of-erase anyone m r.members found v.distinct));
    players_ok =
        rw v.players_ok (sym (Cache.cache_of-erase is_active m r.members found v.distinct));
    spectators_ok =
        rw v.spectators_ok (sym (Cache.cache_of-erase is_watching m r.members found v.distinct));
    disqualified_ok = ground (
      arith,
      v.disqualified_ok,
      Cache.count-erase is_disqualified m r.members found,
      Cache.count-le-length is_disqualified r.members,
      v.bounded,
    );
  }

  -- The bookkeeping of a member who joins.
  pub cached_add-Inv :
      (m : Member) (r : Room G)
      → Map.find m.user r.members ≡ none
      → FreshTime m.since r.members
      → length r.members + 1 < size_mod
      → Inv r
      → Inv (cached_add m (record r { members = Map.insert m r.members }))
  unfolding cached_add
  cached_add-Inv m r new fresh room v = record {
    distinct =
        Map.insert-Distinct m r.members fresh (Map.FreshUser-find m.user r.members new) v.distinct;
    bounded = omega (arith, room, Map.length-insert m r.members new);
    users_ok = rw v.users_ok (sym (Cache.cache_of-insert anyone m r.members new fresh));
    users_as_spectators_ok =
        rw v.users_as_spectators_ok (sym (Cache.cache_of-insert anyone m r.members new fresh));
    players_ok = rw v.players_ok (sym (Cache.cache_of-insert is_active m r.members new fresh));
    spectators_ok =
        rw v.spectators_ok (sym (Cache.cache_of-insert is_watching m r.members new fresh));
    disqualified_ok = ground (
      arith,
      v.disqualified_ok,
      Cache.count-insert is_disqualified m r.members new,
      Cache.count-le-length is_disqualified r.members,
    );
  }

  -- A guarded change of a member keeps the bookkeeping, whatever it does to status and flags.
  pub guarded-Inv :
      (f : Member → Member) (m : Member) (r : Room G)
      → Map.find m.user r.members ≡ some m
      → (f m).user ≡ m.user
      → (f m).since ≡ m.since
      → Inv r
      → Inv (guarded f m r)
  unfolding guarded
  guarded-Inv f m r found eu es v = record {
    distinct = Map.assign-Distinct m (f m) r.members (rw eu found) es v.distinct;
    bounded = rw Map.length-assign v.bounded;
    users_ok =
        rw v.users_ok
          (sym (Cache.cache_of-guarded anyone m (f m) r.members found eu es v.distinct));
    users_as_spectators_ok =
        rw v.users_as_spectators_ok
          (sym (Cache.cache_of-guarded anyone m (f m) r.members found eu es v.distinct));
    players_ok =
        rw v.players_ok
          (sym (Cache.cache_of-guarded is_active m (f m) r.members found eu es v.distinct));
    spectators_ok =
        rw v.spectators_ok
          (sym (Cache.cache_of-guarded is_watching m (f m) r.members found eu es v.distinct));
    disqualified_ok = ground (
      arith,
      v.disqualified_ok,
      v.bounded,
      Cache.count-le-length is_disqualified r.members,
      Cache.count-erase is_disqualified m r.members found,
      Map.length-erase m.user r.members m found,
      Cache.count-le-length is_disqualified (Map.erase m.user r.members),
      Cache.count-assign is_disqualified m (f m) r.members (rw eu found),
      ap (λ u. count is_disqualified (Map.erase u r.members)) eu,
    );
  }

  -- A change of the broadcast flag is not seen by the sets.
  pub assign-Inv :
      (m m' : Member) (r : Room G)
      → Map.find m'.user r.members ≡ some m
      → m'.since ≡ m.since
      → m'.status ≡ m.status
      → m'.disqualified ≡ m.disqualified
      → Inv r
      → Inv (record r { members = Map.assign m' r.members })
  unfolding is_player is_spectator
  assign-Inv m m' r found es et ed v = record {
    distinct = Map.assign-Distinct m m' r.members found es v.distinct;
    bounded = rw Map.length-assign v.bounded;
    users_ok = v.users_ok ∙ sym (Cache.cache_of-assign_same anyone m m' r.members found es refl);
    users_as_spectators_ok =
        v.users_as_spectators_ok
        ∙ sym (Cache.cache_of-assign_same anyone m m' r.members found es refl);
    players_ok =
        v.players_ok
        ∙ sym (Cache.cache_of-assign_same is_active m m' r.members found es (rw (et, ed) refl));
    spectators_ok =
        v.spectators_ok
        ∙ sym (Cache.cache_of-assign_same is_watching m m' r.members found es (rw (et, ed) refl));
    disqualified_ok =
        v.disqualified_ok ∙ sym (Cache.count-assign_same is_disqualified m m' r.members found ed);
  }
