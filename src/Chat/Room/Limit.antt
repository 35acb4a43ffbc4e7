-- ===== src/Chat/Room/Limit.antt =====
-- The player limit: no join and no flush of the waitlist takes a room above it.
use social_gaming_platform.Prelude.{
  ℕ, ◌+◌, ◌≤◌, ◌≡◌, refl, Bool, ◌||◌, some, List, [], ◌∷◌, arith, ap, inl, inr, Option-cases,
  Bool-cases, ltb, ◌==◌, if◌then◌else◌, count,
}
use social_gaming_platform.Std.PtrSet.{MemberPtr}
use social_gaming_platform.Chat.Member.{Member, player}
use social_gaming_platform.Chat.Member.Map
use social_gaming_platform.Chat.Member.Cache
use social_gaming_platform.Chat.Room.{Room, player_count, spectator_count, is_game_active}
use social_gaming_platform.Chat.Room.Caches.{guarded, cached_remove, cached_add}
use social_gaming_platform.Chat.Room.Invariant.{Inv}
use social_gaming_platform.Chat.Room.Waitlist.{change, with_status, flush_queue, flush_waitlist}
use social_gaming_platform.Chat.Room.Moves.{Moves, change-Moves}
use social_gaming_platform.Chat.Room.Counts.{takes_part, player_count-eq-count}

-- The limit holds.
abbrev pub Fits : {G : Type 0} → Room G → Type 0
Fits r = player_count r ≤ r.player_limit

module _ {G : Type 0} where
  -- The members that pass a test after a change of one of them.
  pub count-guarded :
      (t : Member → Bool) (f : Member → Member) (m : Member) (r : Room G)
      → Map.find m.user r.members ≡ some m
      → (f m).user ≡ m.user
      → count t (guarded f m r).members + (if t m then 1 else 0)
        ≡ count t r.members + (if t (f m) then 1 else 0)
  unfolding guarded cached_remove cached_add
  count-guarded t f m r found eu = ground (
    arith,
    Cache.count-assign t m (f m) r.members (cc (eu, found)),
    Cache.count-erase t m r.members found,
    ap (λ u. count t (Map.erase u r.members)) eu,
  )

  count-change :
      (f : Member → Member) (u : ℕ) (m : Member) (r : Room G)
      → Map.find u r.members ≡ some m
      → (f m).user ≡ m.user
      → count takes_part (change f u r).members + (if takes_part m then 1 else 0)
        ≡ count takes_part r.members + (if takes_part (f m) then 1 else 0)
  unfolding change
  count-change f u m r found eu =
      rw (found, change)
        (count-guarded takes_part f m r (cc (found, Map.find-user u r.members m found)) eu)

  -- A change of one member moves the count of players by what it does to that member.
  pub player_count-change :
      (f : Member → Member) (u : ℕ) (m : Member) (r : Room G)
      → ((x : Member) → ((f x).user ≡ x.user) × ((f x).since ≡ x.since))
      → Map.find u r.members ≡ some m
      → Inv r
      → player_count (change f u r) + (if takes_part m then 1 else 0)
        ≡ player_count r + (if takes_part (f m) then 1 else 0)
  player_count-change f u m r keep found v =
      rw (player_count-eq-count ((change-Moves f u r keep).inv v), player_count-eq-count v)
        (count-change f u m r found (keep m).0)

  pub player_count-change-le :
      (f : Member → Member) (u : ℕ) (r : Room G)
      → ((x : Member) → ((f x).user ≡ x.user) × ((f x).since ≡ x.since))
      → Inv r
      → player_count (change f u r) ≤ player_count r + 1
  unfolding change
  player_count-change-le f u r keep v = elim (Option-cases (Map.find u r.members)) [
    | inl e ↦ rw (e, change) (omega arith)
    | inr (m, e) ↦ ground (arith, player_count-change f u m r keep e v)
  ]

  flush_queue-Fits :
      (queue : List MemberPtr) (r : Room G) → Inv r → Fits r → Fits (flush_queue queue r)
  unfolding flush_queue
  flush_queue-Fits [] r v h = h
  flush_queue-Fits (p ∷ queue) r v h =
      let mv : Moves r (change (with_status player) p.id r) =
        change-Moves (with_status player) p.id r (λ x. (refl, refl)) in
      let step : player_count (change (with_status player) p.id r) ≤ player_count r + 1 =
        player_count-change-le (with_status player) p.id r (λ x. (refl, refl)) v in
      elim (Bool-cases (ltb (player_count r) r.player_limit)) [
        | inl e ↦ rw e (
            flush_queue-Fits queue (change (with_status player) p.id r) (mv.inv v)
              (rw mv.player_limit (ground (arith, step))))
        | inr e ↦ rw e h
      ]

  -- Flushing the waitlist of a well-formed room never takes it above the player limit.
  pub flush_waitlist-Fits : (r : Room G) → Inv r → Fits r → Fits (flush_waitlist r)
  unfolding flush_waitlist
  flush_waitlist-Fits r v h = elim (Bool-cases (is_game_active r || spectator_count r == 0)) [
    | inl e ↦ rw e h
    | inr e ↦ rw e (flush_queue-Fits _ r v h)
  ]
