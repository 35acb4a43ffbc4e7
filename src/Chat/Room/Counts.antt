-- ===== src/Chat/Room/Counts.antt =====
-- The counts of a room, recomputed from its members.
use social_gaming_platform.Prelude.{
  ◌+◌, ◌≡◌, Bool, not, ◌||◌, List, [], ◌∷◌, arith, length, count, ap,
}
use social_gaming_platform.Chat.Member.{Member, is_player, is_spectator, is_disqualified}
use social_gaming_platform.Chat.Member.Cache
use social_gaming_platform.Chat.Room.{
  Room, player_count, active_player_count, spectator_count, user_count,
}
use social_gaming_platform.Chat.Room.Invariant.{Inv, is_active, is_watching}

-- Players who are in, or were disqualified from, the game; the others only watch.
abbrev pub takes_part : Member → Bool
takes_part m = is_player m || is_disqualified m

abbrev pub only_watches : Member → Bool
only_watches m = not (takes_part m)

count-takes_part :
    (ms : List Member) → count is_active ms + count is_disqualified ms ≡ count takes_part ms
unfolding is_player
count-takes_part [] = omega arith
count-takes_part (m ∷ ms) = ground (arith, count-takes_part ms)

count-only_watches :
    (ms : List Member) → count is_watching ms ≡ count only_watches ms + count is_disqualified ms
unfolding is_player is_spectator
count-only_watches [] = omega arith
count-only_watches (m ∷ ms) = ground (arith, count-only_watches ms)

count-split : (ms : List Member) → count takes_part ms + count only_watches ms ≡ length ms
count-split [] = omega arith
count-split (m ∷ ms) = ground (arith, count-split ms)

module _ {G : Type 0} {r : Room G} (v : Inv r) where
  pub player_count-eq-count : player_count r ≡ count takes_part r.members
  unfolding player_count
  player_count-eq-count = omega (
    arith,
    ap length v.players_ok,
    v.disqualified_ok,
    v.bounded,
    Cache.length-cache_of is_active r.members v.distinct,
    count-takes_part r.members,
    count-split r.members,
  )

  pub spectator_count-eq-count : spectator_count r ≡ count only_watches r.members
  unfolding spectator_count
  spectator_count-eq-count = omega (
    arith,
    ap length v.spectators_ok,
    v.disqualified_ok,
    v.bounded,
    Cache.length-cache_of is_watching r.members v.distinct,
    count-only_watches r.members,
    count-split r.members,
  )

  -- Under the bookkeeping no count wraps round: the players and the spectators of a room are exactly
  -- the members who take part and those who only watch, and together all its users.
  pub counts_lem :
      (player_count r ≡ count takes_part r.members)
      × (spectator_count r ≡ count only_watches r.members)
      × (active_player_count r ≡ count is_active r.members)
      × (player_count r + spectator_count r ≡ user_count r)
  unfolding active_player_count user_count
  counts_lem = (
    player_count-eq-count,
    spectator_count-eq-count,
    omega (arith, ap length v.players_ok, Cache.length-cache_of is_active r.members v.distinct),
    omega (arith, player_count-eq-count, spectator_count-eq-count, count-split r.members),
  )
