-- ===== src/Chat/Room/Waiting.antt =====
-- What Room::flush_waitlist achieves, and how disqualification moves the counts (module/chat/src/Room.cpp).
use social_gaming_platform.Prelude.{
  ℕ, ◌+◌, ◌≤◌, ◌≡◌, refl, Bool, true, false, ◌||◌, Option, none, some, List, [], ◌∷◌, arith, ap,
  ◌∙◌, ◌⊎◌, inl, inr, Option-cases, Bool-cases, ltb, ◌==◌, ==_iff, if◌then◌else◌, count, filter,
}
use social_gaming_platform.Std.PtrSet.{MemberPtr}
use social_gaming_platform.Chat.Member.{
  Member, player, is_player, is_waitlisted, is_disqualified, ptr,
}
use social_gaming_platform.Chat.Member.Map
use social_gaming_platform.Chat.Room.{
  Room, player_count, active_player_count, spectator_count, is_game_active, spectators, find_by_id,
}
use social_gaming_platform.Chat.Room.Caches.{guarded, cached_remove, cached_add}
use social_gaming_platform.Chat.Room.Invariant.{Inv, anyone, is_active}
use social_gaming_platform.Chat.Room.Waitlist.{
  change, with_status, with_disqualified, flush_queue, flush_waitlist, points_to_waitlisted,
  disqualify_player,
}
use social_gaming_platform.Chat.Room.Moves.{disqualify_player-Moves}
use social_gaming_platform.Chat.Room.Counts.{
  takes_part, only_watches, counts_lem, spectator_count-eq-count,
}
use social_gaming_platform.Chat.Room.Limit.{count-guarded}
use social_gaming_platform.Chat.Room.Lookup.{find_by_id-cache_of, passing}

abbrev pub on_found : (Member → Member) → Option Member → Option Member
on_found f none = none
on_found f (some m) = some (f m)

module _ {G : Type 0} where
  pub find-guarded :
      (f : Member → Member) (u v : ℕ) (m : Member) (r : Room G)
      → (f m).user ≡ m.user
      → Map.find v r.members ≡ some m
      → Map.find u (guarded f m r).members
        ≡ (if v == u then on_found f (Map.find u r.members) else Map.find u r.members)
  unfolding guarded cached_remove cached_add
  find-guarded f u v m r eu found =
      rw
        (Map.find-assign u (f m) r.members
          (λ e. cc (e, eu, found, Map.find-user v r.members m found)))
        (ground (arith, Map.find-user v r.members m found))

  -- What a change of one member does to every entry.
  pub find-change :
      (f : Member → Member) (u v : ℕ) (r : Room G)
      → ((x : Member) → (f x).user ≡ x.user)
      → Map.find u (change f v r).members
        ≡ (if v == u then on_found f (Map.find u r.members) else Map.find u r.members)
  unfolding change
  find-change f u v r keep = elim (Option-cases (Map.find v r.members)) [
    | inl e ↦ rw (e, change) (ground arith)
    | inr (m, e) ↦ rw (e, change) (find-guarded f u v m r (keep m) e)
  ]

promoted_twice :
    (o : Option Member)
    → on_found (with_status player) (on_found (with_status player) o)
      ≡ on_found (with_status player) o
promoted_twice none = refl
promoted_twice (some m) = refl

-- A pointer to the entry of a user is in the list.
abbrev pub has_id : ℕ → List MemberPtr → Bool
has_id u [] = false
has_id u (p ∷ s) = p.id == u || has_id u s

has_id-filter :
    (t : MemberPtr → Bool) (u : ℕ) (s : List MemberPtr) (p : MemberPtr)
    → find_by_id u s ≡ some p
    → t p ≡ true
    → has_id u (filter t s) ≡ true
unfolding find_by_id
has_id-filter t u [] p e h = ground arith
has_id-filter t u (q ∷ s) p e h = ground (arith, has_id-filter t u s p)

count-zero :
    (t : Member → Bool) (u : ℕ) (ms : List Member) (m : Member)
    → count t ms ≡ 0
    → Map.find u ms ≡ some m
    → t m ≡ false
unfolding Map.find
count-zero t u [] m z e = ground arith
count-zero t u (x ∷ ms) m z e = ground (arith, count-zero t u ms m)

-- Nobody is on the waitlist, but for members who are disqualified.
abbrev pub NobodyWaits : {G : Type 0} → Room G → Type 0
NobodyWaits r =
    (u : ℕ) (m : Member)
    → Map.find u r.members ≡ some m
    → is_waitlisted m ≡ true
    → is_disqualified m ≡ true

-- What a flush may make of a member: nothing, or a player of one who waits.
abbrev pub Served : Option Member → Option Member → Type 0
Served none o = o ≡ none
Served (some m) o = (o ≡ some m) ⊎ ((is_waitlisted m ≡ true) × (o ≡ some (with_status player m)))

abbrev Queued : {G : Type 0} → List MemberPtr → Room G → Type 0
Queued queue r =
    (u : ℕ) (m : Member)
    → Map.find u r.members ≡ some m
    → is_waitlisted m ≡ true
    → has_id u queue ≡ true

module _ {G : Type 0} where
  Queued-promote :
      (p : MemberPtr) (queue : List MemberPtr) (r : Room G)
      → Queued (p ∷ queue) r
      → Queued queue (change (with_status player) p.id r)
  unfolding is_waitlisted
  Queued-promote p queue r h u m found waits =
      ground (arith, find-change (with_status player) u p.id r (λ x. refl), h u m)

  flush_queue-serves :
      (queue : List MemberPtr) (r : Room G)
      → Queued queue r
      → (let r' = flush_queue queue r in (r'.player_limit ≤ player_count r') ⊎ NobodyWaits r')
  unfolding flush_queue
  flush_queue-serves [] r h = inr (λ u m found waits. cc (h u m found waits))
  flush_queue-serves (p ∷ queue) r h = elim (Bool-cases (ltb (player_count r) r.player_limit)) [
    | inl e ↦ rw e (flush_queue-serves queue _ (Queued-promote p queue r h))
    | inr e ↦ rw e (inl (ground arith))
  ]

  all-Queued :
      (r : Room G)
      → r.game_started ≡ false
      → Inv r
      → Queued (filter (points_to_waitlisted r) (spectators r)) r
  unfolding points_to_waitlisted spectators
  all-Queued r idle v u m found waits =
      has_id-filter (points_to_waitlisted r) u (spectators r) (ptr m)
        (ground (
          arith,
          ap (find_by_id u) v.users_as_spectators_ok,
          find_by_id-cache_of anyone u r.members v.distinct,
          ap (passing anyone) found,
        ))
        (ground (arith, Map.find-user u r.members m found))

  nobody_watches : (r : Room G) → Inv r → spectator_count r ≡ 0 → NobodyWaits r
  unfolding is_waitlisted is_player
  nobody_watches r v e u m found waits =
      ground (arith, spectator_count-eq-count v, count-zero only_watches u r.members m)

  fills :
      (r : Room G)
      → is_game_active r ≡ false
      → Inv r
      → (let r' = flush_waitlist r in (r'.player_limit ≤ player_count r') ⊎ NobodyWaits r')
  unfolding flush_waitlist
  fills r idle v = elim (Bool-cases (is_game_active r || spectator_count r == 0)) [
    | inl e ↦ rw e (inr (nobody_watches r v (ground arith)))
    | inr e ↦ rw e (flush_queue-serves _ r (all-Queued r idle v))
  ]

  -- A flush of the queue promotes some of those in it, and leaves everybody else alone.
  flush_queue-found :
      (queue : List MemberPtr) (u : ℕ) (r : Room G)
      → (Map.find u (flush_queue queue r).members ≡ Map.find u r.members)
        ⊎ ((has_id u queue ≡ true)
            × (Map.find u (flush_queue queue r).members
                ≡ on_found (with_status player) (Map.find u r.members)))
  unfolding flush_queue
  flush_queue-found [] u r = inl refl
  flush_queue-found (p ∷ queue) u r = elim (Bool-cases (ltb (player_count r) r.player_limit)) [
    | inl e ↦ rw e (
        let r₁ : Room G = change (with_status player) p.id r in
        let step = find-change (with_status player) u p.id r (λ x. refl) in
        elim (Bool-cases (p.id == u)) [
          | inl hit ↦
              let now : Map.find u r₁.members
                  ≡ on_found (with_status player) (Map.find u r.members) =
                step ∙ rw hit refl in
              elim (flush_queue-found queue u r₁) [
                | inl same ↦ inr (rw hit refl, same ∙ now)
                | inr (q, again) ↦ inr (
                  rw hit refl,
                  again
                      ∙ ap (on_found (with_status player)) now
                      ∙ promoted_twice (Map.find u r.members),
                )
              ]
          | inr miss ↦
              let kept : Map.find u r₁.members ≡ Map.find u r.members = step ∙ rw miss refl in
              elim (flush_queue-found queue u r₁) [
                | inl same ↦ inl (same ∙ kept)
                | inr (q, again) ↦ inr (rw miss q, again ∙ ap (on_found (with_status player)) kept)
              ]
        ])
    | inr e ↦ rw e (inl refl)
  ]

  queued_waits :
      (s : List MemberPtr) (u : ℕ) (m : Member) (r : Room G)
      → has_id u (filter (points_to_waitlisted r) s) ≡ true
      → Map.find u r.members ≡ some m
      → is_waitlisted m ≡ true
  unfolding points_to_waitlisted
  queued_waits [] u m r h e = cc h
  queued_waits (p ∷ s) u m r h e = ground (arith, queued_waits s u m r)

  served :
      (queue : List MemberPtr) (u : ℕ) (o : Option Member) (r r' : Room G)
      → Map.find u r.members ≡ o
      → (Map.find u r'.members ≡ Map.find u r.members)
        ⊎ ((has_id u (filter (points_to_waitlisted r) queue) ≡ true)
            × (Map.find u r'.members ≡ on_found (with_status player) (Map.find u r.members)))
      → Served o (Map.find u r'.members)
  served queue u none r r' e (inl same) = same ∙ e
  served queue u none r r' e (inr (q, f)) = f ∙ ap (on_found (with_status player)) e
  served queue u (some m) r r' e (inl same) = inl (same ∙ e)
  served queue u (some m) r r' e (inr (q, f)) =
      inr (queued_waits queue u m r q e, f ∙ ap (on_found (with_status player)) e)

  flush_waitlist-Served :
      (r : Room G) (u : ℕ) → Served (Map.find u r.members) (Map.find u (flush_waitlist r).members)
  unfolding flush_waitlist
  flush_waitlist-Served r u = elim (Bool-cases (is_game_active r || spectator_count r == 0)) [
    | inl e ↦ rw e (served [] u (Map.find u r.members) r r refl (inl refl))
    | inr e ↦ rw e (
        let queue = filter (points_to_waitlisted r) (spectators r) in
        served (spectators r) u (Map.find u r.members) r (flush_queue queue r) refl
          (flush_queue-found queue u r))
  ]

  -- After a flush between games, the players' places of a room whose bookkeeping is right are all taken,
  -- or nobody who could play is left on the waitlist. Each member is as before, or was on the waitlist and
  -- is a player now; and nobody joins.
  pub flush_waitlist_serves :
      (r : Room G)
      → is_game_active r ≡ false
      → Inv r
      → (let r' = flush_waitlist r in
          ((r'.player_limit ≤ player_count r') ⊎ NobodyWaits r')
          × ((u : ℕ) → Served (Map.find u r.members) (Map.find u r'.members)))
  flush_waitlist_serves r idle v = (fills r idle v, flush_waitlist-Served r)

module _ {G : Type 0} (u : ℕ) (m : Member) (r : Room G)
    (found : Map.find u r.members ≡ some m) where
  disqualified_room :
      is_player m ≡ true → disqualify_player u r ≡ guarded (with_disqualified true) m r
  unfolding disqualify_player
  disqualified_room p = rw (found, disqualify_player, p) refl

  -- Disqualifying a player of a well-formed room keeps the seat: the counts of players and of spectators
  -- stay, one player fewer is active, and the member is disqualified.
  pub disqualify_player_lem :
      is_player m ≡ true
      → is_disqualified m ≡ false
      → Inv r
      → (player_count (disqualify_player u r) ≡ player_count r)
        × (spectator_count (disqualify_player u r) ≡ spectator_count r)
        × (active_player_count (disqualify_player u r) + 1 ≡ active_player_count r)
        × (Map.find u (disqualify_player u r).members ≡ some (with_disqualified true m))
  unfolding is_player
  disqualify_player_lem p q v =
      let r' : Room G = guarded (with_disqualified true) m r in
      let v' : Inv (disqualify_player u r) = (disqualify_player-Moves u r).inv v in
      let same : disqualify_player u r ≡ r' = disqualified_room p in
      let self : Map.find m.user r.members ≡ some m =
        cc (found, Map.find-user u r.members m found) in
      let moved : (t : Member → Bool)
          → count t (disqualify_player u r).members + (if t m then 1 else 0)
            ≡ count t r.members + (if t (with_disqualified true m) then 1 else 0) =
        λ t. rw same (count-guarded t (with_disqualified true) m r self refl) in
      (
        ground (arith, (counts_lem v).0, (counts_lem v').0, moved takes_part),
        ground (arith, (counts_lem v).1, (counts_lem v').1, moved only_watches),
        ground (arith, (counts_lem v).2, (counts_lem v').2, moved is_active),
        rw same
            (find-guarded (with_disqualified true) u u m r refl found ∙ ground (arith, ==_iff u u)),
      )
