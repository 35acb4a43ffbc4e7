-- ===== src/Chat/Room/Resets.antt =====
-- What Room::reset_players does to every entry and to the counter (module/chat/src/Room.cpp).
use social_gaming_platform.Prelude.{
  ℕ, ◌≡◌, refl, Bool, true, false, ◌||◌, Option, none, some, List, [], ◌∷◌, arith, ◌∙◌, inl, inr,
  Option-cases, ◌==◌, ==_iff, if◌then◌else◌, count,
}
use social_gaming_platform.Chat.Member.{Member, is_disqualified}
use social_gaming_platform.Chat.Member.Map
use social_gaming_platform.Chat.Member.Map.{Distinct}
use social_gaming_platform.Chat.Room.{Room}
use social_gaming_platform.Chat.Room.Caches.{guarded, cached_remove, cached_add}
use social_gaming_platform.Chat.Room.Invariant.{Inv}
use social_gaming_platform.Chat.Room.Waitlist.{
  with_disqualified, reset_player, reset_all, reset_players,
}
use social_gaming_platform.Chat.Room.Moves.{reset_players-Moves}
use social_gaming_platform.Chat.Room.Waiting.{on_found, find-guarded}

abbrev pub cleared : Option Member → Option Member
cleared o = on_found (with_disqualified false) o

cleared_id : (o : Option Member) (m : Member) → o ≡ some m → m.disqualified ≡ false → o ≡ cleared o
cleared_id none m e h = refl
cleared_id (some x) m e h = cc

cleared_twice : (o : Option Member) → cleared (cleared o) ≡ cleared o
cleared_twice none = refl
cleared_twice (some x) = refl

abbrev has_user : ℕ → List Member → Bool
has_user u [] = false
has_user u (m ∷ ms) = m.user == u || has_user u ms

module _ {G : Type 0} where
  find_if :
      (u v : ℕ) (m : Member) (r : Room G)
      → Map.find v r.members ≡ some m
      → (b : Bool) → (b ≡ false → m.disqualified ≡ false)
      → Map.find u (if b then guarded (with_disqualified false) m r else r).members
        ≡ (if v == u then cleared (Map.find u r.members) else Map.find u r.members)
  find_if u v m r e true h = find-guarded (with_disqualified false) u v m r refl e
  find_if u v m r e false h = ground (arith, e, h refl, cleared_id (Map.find u r.members) m)

  find-reset_player :
      (u v : ℕ) (r : Room G)
      → Map.find u (reset_player v r).members
        ≡ (if v == u then cleared (Map.find u r.members) else Map.find u r.members)
  unfolding reset_player
  find-reset_player u v r = elim (Option-cases (Map.find v r.members)) [
    | inl e ↦ rw (e, reset_player) (ground arith)
    | inr (m, e) ↦ rw (e, reset_player) (find_if u v m r e (is_disqualified m) (λ h. h))
  ]

  find-reset_all :
      (u : ℕ) (ms : List Member) (r : Room G)
      → Map.find u (reset_all ms r).members
        ≡ (if has_user u ms then cleared (Map.find u r.members) else Map.find u r.members)
  unfolding reset_all
  find-reset_all u [] r = refl
  find-reset_all u (m ∷ ms) r =
      find-reset_all u ms (reset_player m.user r)
      ∙ ground (arith, find-reset_player u m.user r, cleared_twice (Map.find u r.members))

has_user_lem : (u : ℕ) (ms : List Member) → has_user u ms ≡ false → Map.find u ms ≡ none
unfolding Map.find
has_user_lem u [] h = refl
has_user_lem u (m ∷ ms) h = ground (arith, has_user_lem u ms)

nobody_out :
    (ms : List Member)
    → Distinct ms
    → ((u : ℕ) (m : Member) → Map.find u ms ≡ some m → m.disqualified ≡ false)
    → count is_disqualified ms ≡ 0
unfolding Map.find
nobody_out [] d h = refl
nobody_out (x ∷ ms) d h = ground (
  arith,
  h x.user x,
  ==_iff x.user x.user,
  nobody_out ms d.2 (λ u m e. h u m (ground (arith, e, Map.find-FreshUser x.user ms d.1))),
)

cleared_out : (o : Option Member) (m : Member) → cleared o ≡ some m → m.disqualified ≡ false
cleared_out none m e = cc
cleared_out (some x) m e = cc

module _ {G : Type 0} where
  -- Resetting the players of a well-formed room clears the flag of every member, changes nothing else
  -- of any entry, and brings the counter of disqualified players to 0.
  pub reset_players_lem :
      (r : Room G)
      → Inv r
      → ((u : ℕ) → Map.find u (reset_players r).members ≡ cleared (Map.find u r.members))
        × ((reset_players r).players_disqualified ≡ 0)
  unfolding reset_players
  reset_players_lem r v =
      let all : (u : ℕ) → Map.find u (reset_players r).members ≡ cleared (Map.find u r.members) =
        λ u. ground (arith, find-reset_all u r.members r, has_user_lem u r.members) in
      let v' : Inv (reset_players r) = (reset_players-Moves r).inv v in
      (
        all,
        v'.disqualified_ok
            ∙ nobody_out (reset_players r).members v'.distinct
                (λ u m e. cleared_out (Map.find u r.members) m (cc (all u, e))),
      )

  reset_player-game : (u : ℕ) (r : Room G) → (reset_player u r).game ≡ r.game
  unfolding reset_player guarded cached_remove cached_add
  reset_player-game u r = elim (Option-cases (Map.find u r.members)) [
    | inl e ↦ rw (e, reset_player) refl
    | inr (m, e) ↦ rw (e, reset_player) (game_if m (is_disqualified m))
  ]
    where
      game_if :
          (m : Member) (b : Bool)
          → (if b then guarded (with_disqualified false) m r else r).game ≡ r.game
      game_if m true = refl
      game_if m false = refl

  reset_all-game : (ms : List Member) (r : Room G) → (reset_all ms r).game ≡ r.game
  unfolding reset_all
  reset_all-game [] r = refl
  reset_all-game (m ∷ ms) r = reset_all-game ms (reset_player m.user r) ∙ reset_player-game m.user r

  pub reset_players-game : (r : Room G) → (reset_players r).game ≡ r.game
  unfolding reset_players
  reset_players-game r = reset_all-game r.members r
