-- ===== src/Chat/Room/JoinLimit.antt =====
-- Room::add_user and the player limit.
use social_gaming_platform.Prelude.{
  ℕ, ◌+◌, ◌≤◌, ◌<◌, ◌≡◌, refl, Bool, true, false, Option, none, some, arith, ap, ◌⊎◌, inl, inr,
  Option-cases, if◌then◌else◌, length,
}
use social_gaming_platform.Run.{Outcome, Exception, ok, threw, continue}
use social_gaming_platform.Run.Keeps.{Holds, Holds-chain}
use social_gaming_platform.Chat.Member.{Member, Status, player, spectator, is_player, ptr}
use social_gaming_platform.Chat.Member.Map
use social_gaming_platform.Chat.Member.Map.{FreshTime}
use social_gaming_platform.Chat.Member.Cache
use social_gaming_platform.Chat.Room.{Room, World, size_mod, player_count, is_game_active}
use social_gaming_platform.Chat.Room.Caches.{cached_add}
use social_gaming_platform.Chat.Room.Invariant.{Inv, is_active, cached_add-Inv}
use social_gaming_platform.Chat.Room.Waitlist.{change, with_status, flush_waitlist}
use social_gaming_platform.Chat.Room.Moves.{Moves, change-Moves}
use social_gaming_platform.Chat.Room.Counts.{takes_part, player_count-eq-count}
use social_gaming_platform.Chat.Room.Lookup.{lookups_lem, passing}
use social_gaming_platform.Chat.Room.Limit.{Fits, player_count-change, flush_waitlist-Fits}
use social_gaming_platform.Chat.Room.Membership.{
  Signals, IsQuiet, Join, as_player, as_player_waiting, as_spectator, set_owner, claim_ownership,
  new_member, join, suppress, enter, choose_status, player_place, spectator_place, join_status,
  add_user, enclose, without_self,
}

-- What leaves the seats of a room as they are.
abbrev SameSeats : {G : Type 0} → Room G → Room G → Type 0
SameSeats r r' = (player_count r' ≡ player_count r) × (r'.player_limit ≡ r.player_limit)

SameSeats-Fits : {G : Type 0} (r r' : Room G) → Fits r → SameSeats r r' → Fits r'
SameSeats-Fits r r' h (e, l) = rw (e, l) h

module _ {G : Type 0} where
  suppress-SameSeats : (b : Bool) (u : ℕ) (r : Room G) → SameSeats r (suppress b u r)
  unfolding suppress player_count
  suppress-SameSeats b u r = ground arith

module _ {G : Type 0} (s : Signals G) (q : IsQuiet s) where
  set_owner-SameSeats :
      (p : _) (w : World G) → Holds (λ w'. SameSeats w.room w'.room) (set_owner s p w)
  unfolding set_owner player_count
  set_owner-SameSeats p w = elim (Option-cases (Map.find p.id w.room.members)) [
    | inl e ↦ rw (e, set_owner) (refl, refl)
    | inr (m, e) ↦ rw (e, set_owner) (rw q.owner_change (refl, refl))
  ]

  claim_ownership-SameSeats :
      (p : _) (w : World G) → Holds (λ w'. SameSeats w.room w'.room) (claim_ownership s p w)
  unfolding claim_ownership player_count
  claim_ownership-SameSeats p w = elim (Option-cases w.room.owner) [
    | inl e ↦ rw (e, claim_ownership) (set_owner-SameSeats p w)
    | inr (o, e) ↦ rw (e, claim_ownership) (refl, refl)
  ]

abbrev seat : Status → ℕ
seat s = elim s [ player ↦ 1 | _ ↦ 0 ]

module _ {G : Type 0} where
  -- The seats right after the entry was made.
  added-seats :
      (now u : ℕ) (status : Status) (w : World G)
      → Map.find u w.room.members ≡ none
      → FreshTime now w.room.members
      → length w.room.members + 1 < size_mod
      → Inv w.room
      → player_count (
          cached_add
            (new_member now u status w)
            (record w.room { members = Map.insert (new_member now u status w) w.room.members }))
        ≡ player_count w.room + seat status
  unfolding cached_add is_player
  added-seats now u status w new fresh bound v =
      let m : Member = new_member now u status w in
      rw
        (player_count-eq-count (cached_add-Inv m w.room new fresh bound v), player_count-eq-count v)
        (ground (arith, Cache.count-insert takes_part m w.room.members new))

  -- A place that is free for a user who is in the room, or is not.
  player_place-free :
      (u : ℕ) (r : Room G) (o : Option Member)
      → Map.find u r.members ≡ o
      → Inv r
      → player_place u r ≡ true
      → player_count r
        < r.player_limit + (elim o [ none ↦ 0 | some m ↦ if is_active m then 1 else 0 ])
  unfolding player_place without_self
  player_place-free u r none e v h = ground (arith, (lookups_lem v u).1, ap (passing is_active) e)
  player_place-free u r (some m) e v h = ground (
    arith,
    (lookups_lem v u).1,
    ap (passing is_active) e,
    player_count-eq-count v,
    v.bounded,
    Cache.count-le-length takes_part r.members,
    Cache.count-erase takes_part m r.members (cc (e, Map.find-user u r.members m e)),
  )

-- What the switch comes to: a player's status where a player's place is free, a spectator's, or a throw.
abbrev Chosen : {W : Type 0} → Bool → W → Outcome W Status → Type 0
Chosen free w o =
    ((o ≡ ok player w) × (free ≡ true))
    ⊎ ((o ≡ ok spectator w) ⊎ ((e : Exception) × (o ≡ threw e w)))

choose_status-Chosen :
    {W : Type 0} (method : Join) (a b c : Bool) (w : W) → Chosen a w (choose_status method a b c w)
unfolding choose_status
choose_status-Chosen as_player true b true w = inr (inr (_, refl))
choose_status-Chosen as_player true b false w = inl (refl, refl)
choose_status-Chosen as_player false b c w = inr (inr (_, refl))
choose_status-Chosen as_spectator a true c w = inr (inl refl)
choose_status-Chosen as_spectator a false c w = inr (inr (_, refl))
choose_status-Chosen as_player_waiting true b c w = inl (refl, refl)
choose_status-Chosen as_player_waiting false true c w = inr (inl refl)
choose_status-Chosen as_player_waiting false false c w = inr (inr (_, refl))

module _ {G : Type 0} (s : Signals G) (q : IsQuiet s) where
  join-Fits :
      (now u : ℕ) (status : Status) (w : World G)
      → Map.find u w.room.members ≡ none
      → FreshTime now w.room.members
      → length w.room.members + 1 < size_mod
      → Inv w.room
      → player_count w.room + seat status ≤ w.room.player_limit
      → Holds (λ w'. Fits w'.room) (join s now u status w)
  unfolding join cached_add
  join-Fits now u status w new fresh bound v h =
      let m : Member = new_member now u status w in
      let r : Room G = cached_add m (record w.room { members = Map.insert m w.room.members }) in
      let start : Fits r = rw (added-seats now u status w new fresh bound v) h in
      Holds-chain {P = λ w'. SameSeats r w'.room} _ _ (claim_ownership-SameSeats s q (ptr m) _)
        (λ w' e. SameSeats-Fits r w'.room start e)
        (λ _ w' e.
          SameSeats-Fits _ _
            (SameSeats-Fits r (s.on_member_join (ptr m) w').room start (rw q.member_join e))
            (suppress-SameSeats false u (s.on_member_join (ptr m) w').room))

  enter-Fits :
      (now u : ℕ) (status : Status) (w : World G)
      → FreshTime now w.room.members
      → length w.room.members + 1 < size_mod
      → Inv w.room
      → Fits w.room
      → (status ≡ spectator) ⊎ ((status ≡ player) × (player_place u w.room ≡ true))
      → Holds (λ w'. Fits w'.room) (enter s now u status w)
  unfolding enter is_player
  enter-Fits now u status w fresh bound v h chosen =
      elim (Option-cases (Map.find u w.room.members)) [
        | inl e ↦
            rw (e, enter)
              (join-Fits now u status w e fresh bound v
                (ground (arith, player_place-free u w.room none e v)))
        | inr (m, e) ↦ rw (e, enter) (seated m e)
      ]
    where
      seated :
          (m : Member)
          → Map.find u w.room.members ≡ some m
          → Fits (change (with_status status) u w.room)
      seated m e =
          let mv : Moves w.room (change (with_status status) u w.room) =
            change-Moves (with_status status) u w.room (λ x. (refl, refl)) in
          rw mv.player_limit (
            ground (
              arith,
              player_count-change (with_status status) u m w.room (λ x. (refl, refl)) e v,
              player_place-free u w.room (some m) e v,
            ))

add_user-Fits :
    {G : Type 0} (s : Signals G) (q : IsQuiet s) (now u : ℕ) (method : Join) (w : World G)
    → FreshTime now w.room.members
    → length w.room.members + 1 < size_mod
    → Inv w.room
    → Fits w.room
    → Holds (λ w'. Fits w'.room) (add_user s now u method w)
unfolding add_user join_status
add_user-Fits s q now u method w fresh bound v h = go (
    choose_status-Chosen method (player_place u w.room) (spectator_place u w.room)
      (is_game_active w.room) w.room)
  where
    go :
        {o : Outcome (Room _) Status}
        → Chosen (player_place u w.room) w.room o
        → Holds (λ w'. Fits w'.room) (continue (enclose w o) (enter s now u))
    go (inl (e, free)) = rw e (enter-Fits s q now u player w fresh bound v h (inr (refl, free)))
    go (inr (inl e)) = rw e (enter-Fits s q now u spectator w fresh bound v h (inl refl))
    go (inr (inr (x, e))) = rw e h

-- Neither a join nor a flush of the waitlist takes a well-formed room above its player limit; a join does
-- not when it is a first join, nor when it is a change of status, nor when it throws. The conditions are
-- those under which a join keeps the room well formed.
pub limit_lem :
    {G : Type 0} (s : Signals G) (q : IsQuiet s) (now u : ℕ) (method : Join) (w : World G)
    → FreshTime now w.room.members
    → length w.room.members + 1 < size_mod
    → Inv w.room
    → Fits w.room
    → Holds (λ w'. Fits w'.room) (add_user s now u method w) × Fits (flush_waitlist w.room)
limit_lem s q now u method w fresh bound v h =
    (add_user-Fits s q now u method w fresh bound v h, flush_waitlist-Fits w.room v h)
