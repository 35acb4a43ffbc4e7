-- ===== src/Chat/Room/Wins.antt =====
-- The wins that Room::start_game gives out (module/chat/src/Room.cpp).
use social_gaming_platform.Prelude.{
  ℕ, zero, suc, ◌≡◌, refl, Bool, Option, none, some, List, [], ◌∷◌, arith, ap, ◌∙◌, ◌==◌,
  if◌then◌else◌,
}
use social_gaming_platform.Std.PtrSet
use social_gaming_platform.Std.PtrSet.{MemberPtr, Avoids}
use social_gaming_platform.Chat.User.{User, increment_wins}
use social_gaming_platform.Chat.Member.{Member, ptr}
use social_gaming_platform.Chat.Member.Map
use social_gaming_platform.Chat.Member.Cache.{cache_of, cache_of-Avoids}
use social_gaming_platform.Chat.Room.{Room}
use social_gaming_platform.Chat.Room.Invariant.{Inv, is_active}
use social_gaming_platform.Chat.Room.Games.{award_all, update_user}

abbrev iterate : ℕ → (User → User) → User → User
iterate zero f x = x
iterate (suc n) f x = iterate n f (f x)

-- How many pointers lead to entries of a user.
abbrev times : ℕ → List MemberPtr → ℕ
times v [] = 0
times v (p ∷ s) = if p.id == v then suc (times v s) else times v s

award_all-times :
    (s : List MemberPtr) (users : ℕ → User) (v : ℕ)
    → award_all s users v ≡ iterate (times v s) increment_wins (users v)
unfolding award_all
award_all-times [] users v = refl
award_all-times (p ∷ s) users v =
    award_all-times s (update_user p.id increment_wins users) v ∙ ground arith

times-insert :
    (v : ℕ) (q : MemberPtr) (s : List MemberPtr)
    → Avoids q.since s
    → times v (PtrSet.insert q s) ≡ (if q.id == v then suc (times v s) else times v s)
unfolding PtrSet.insert
times-insert v q [] a = refl
times-insert v q (p ∷ s) a = ground (arith, times-insert v q s)

abbrev once : (Member → Bool) → Option Member → ℕ
once t none = 0
once t (some m) = if t m then 1 else 0

times-cache_of :
    (t : Member → Bool) (v : ℕ) (ms : List Member)
    → Map.Distinct ms
    → times v (cache_of t ms) ≡ once t (Map.find v ms)
unfolding cache_of Map.find
times-cache_of t v [] d = refl
times-cache_of t v (m ∷ ms) d = ground (
  arith,
  times-cache_of t v ms d.2,
  times-cache_of t m.user ms d.2,
  Map.find-FreshUser m.user ms d.1,
  times-insert v (ptr m) (cache_of t ms),
  cache_of-Avoids t m.since ms d.0,
)

-- One more win for a member who plays.
abbrev pub award : Option Member → User → User
award none u = u
award (some m) u = if is_active m then increment_wins u else u

iterate-once :
    (o : Option Member) (u : User) → iterate (once is_active o) increment_wins u ≡ award o u
iterate-once none u = refl
iterate-once (some m) u = ground arith

module _ {G : Type 0} where
  -- Awarding a win to the players of a well-formed room gives one win to each user who is an active
  -- player, exactly once, and leaves every other user as it was.
  pub award_all_lem :
      (r : Room G) (users : ℕ → User) (v : ℕ)
      → Inv r
      → award_all r.cached_players users v ≡ award (Map.find v r.members) (users v)
  award_all_lem r users v i =
      award_all-times r.cached_players users v
      ∙ ap (λ n. iterate n increment_wins (users v))
          (ap (times v) i.players_ok ∙ times-cache_of is_active v r.members i.distinct)
      ∙ iterate-once (Map.find v r.members) (users v)
