-- ===== src/Chat/Room/SetLimit.antt =====
-- Room::set_player_limit (module/chat/src/Room.cpp): who is moved to the waitlist, and what is not
-- stored.
use social_gaming_platform.Prelude.{
  ℕ, zero, suc, ◌+◌, ◌-◌, ◌^◌, ◌≤◌, ◌<◌, ◌≡◌, refl, Bool, true, some, List, [], ◌∷◌, ◌++◌, arith,
  ap, ◌∙◌, sym, inl, inr, Bool-cases, length, take, drop, Option, none, false, ◌||◌, ◌==◌,
  if◌then◌else◌,
}
use mathlib.Core.Path.{subst}
use social_gaming_platform.Run.{ok, undefined}
use social_gaming_platform.Std.PtrSet
use social_gaming_platform.Std.PtrSet.{MemberPtr}
use social_gaming_platform.Chat.Member.{Member, player_waitlist, is_player, ptr}
use social_gaming_platform.Chat.Member.Map
use social_gaming_platform.Chat.Member.Cache.{cache_of}
use social_gaming_platform.Chat.Room.{Room, player_count}
use social_gaming_platform.Chat.Room.Caches.{guarded, cached_remove, cached_add}
use social_gaming_platform.Chat.Room.Invariant.{Inv, is_active}
use social_gaming_platform.Chat.Room.Waitlist.{
  change, with_status, waitlist_all, waitlist_first, set_player_limit, overflow,
}
use social_gaming_platform.Chat.Room.Waiting.{on_found, has_id, find-change}
use social_gaming_platform.Chat.Room.Moves.{Moves, change-Moves, waitlist_all-Moves}

-- A pointer leads to an entry that passes the test.
abbrev pub Leads : (Member → Bool) → MemberPtr → List Member → Type 0
Leads t p ms = (m : Member) × (Map.find p.id ms ≡ some m) × (ptr m ≡ p) × (t m ≡ true)

abbrev pub AllLead : (Member → Bool) → List MemberPtr → List Member → Type 0
AllLead t [] ms = Unit {0}
AllLead t (p ∷ s) ms = Leads t p ms × AllLead t s ms

module _ (t : Member → Bool) where
  AllLead-insert :
      (p : MemberPtr) (s : List MemberPtr) (ms : List Member)
      → Leads t p ms
      → AllLead t s ms
      → AllLead t (PtrSet.insert p s) ms
  unfolding PtrSet.insert
  AllLead-insert p [] ms h k = (h, tt)
  AllLead-insert p (q ∷ s) ms h k = ground (arith, AllLead-insert p s ms)

  AllLead-cons :
      (m : Member) (s : List MemberPtr) (ms : List Member)
      → Map.FreshUser m.user ms
      → AllLead t s ms
      → AllLead t s (m ∷ ms)
  unfolding Map.find
  AllLead-cons m [] ms f h = tt
  AllLead-cons m (p ∷ s) ms f ((x, e, l, b), k) =
      ((x, ground (arith, Map.find-FreshUser m.user ms f), l, b), AllLead-cons m s ms f k)

  -- Every pointer of a cached set leads to an entry that belongs there.
  pub AllLead-cache_of : (ms : List Member) → Map.Distinct ms → AllLead t (cache_of t ms) ms
  unfolding cache_of Map.find
  AllLead-cache_of [] d = tt
  AllLead-cache_of (m ∷ ms) d =
      let rest : AllLead t (cache_of t ms) (m ∷ ms) =
        AllLead-cons m (cache_of t ms) ms d.1 (AllLead-cache_of ms d.2) in
      elim (Bool-cases (t m)) [
        | inl b ↦
            rw b (AllLead-insert (ptr m) (cache_of t ms) (m ∷ ms) (m, ground arith, refl, b) rest)
        | inr b ↦ rw b rest
      ]

module _ {G : Type 0} where
  waitlist_entry :
      (m : Member) (s : List MemberPtr) (r : Room G)
      → r.cached_players ≡ ptr m ∷ s
      → is_active m ≡ true
      → ((guarded (with_status player_waitlist) m r).cached_players ≡ s)
        × ((guarded (with_status player_waitlist) m r).players_disqualified
            ≡ r.players_disqualified)
  unfolding guarded cached_remove cached_add is_player PtrSet.erase
  waitlist_entry m s r e a = ground arith

  -- Waitlisting the first player takes that pointer out of the players' set.
  waitlist_first_player :
      (p : MemberPtr) (s : List MemberPtr) (r : Room G)
      → r.cached_players ≡ p ∷ s
      → Inv r
      → ((change (with_status player_waitlist) p.id r).cached_players ≡ s)
        × ((change (with_status player_waitlist) p.id r).players_disqualified
            ≡ r.players_disqualified)
  unfolding change
  waitlist_first_player p s r e v =
      let (m, found, same, active) =
        (subst (λ ps. AllLead is_active ps r.members) (sym v.players_ok ∙ e)
          (AllLead-cache_of is_active r.members v.distinct)).0 in
      rw (found, change) (waitlist_entry m s r (rw same e) active)

  waitlist_all-players :
      (ps rest : List MemberPtr) (r : Room G)
      → r.cached_players ≡ ps ++ rest
      → Inv r
      → ((waitlist_all ps r).cached_players ≡ rest)
        × ((waitlist_all ps r).players_disqualified ≡ r.players_disqualified)
  unfolding waitlist_all
  waitlist_all-players [] rest r e v = (e, refl)
  waitlist_all-players (p ∷ ps) rest r e v =
      let (e', d') = waitlist_first_player p (ps ++ rest) r e v in
      let v' : Inv (change (with_status player_waitlist) p.id r) =
        (change-Moves (with_status player_waitlist) p.id r (λ x. (refl, refl))).inv v in
      let (e'', d'') =
        waitlist_all-players ps rest (change (with_status player_waitlist) p.id r) e' v' in
      (e'', d'' ∙ d')

-- Who is among the pointers is waitlisted, and nobody else changes.
waitlisted : Bool → Option Member → Option Member
waitlisted b o = if b then on_found (with_status player_waitlist) o else o

waitlisted_twice :
    (a b : Bool) (o : Option Member) → waitlisted b (waitlisted a o) ≡ waitlisted (a || b) o
unfolding waitlisted
waitlisted_twice false b o = refl
waitlisted_twice true false o = refl
waitlisted_twice true true none = refl
waitlisted_twice true true (some m) = refl

waitlist_all-found :
    {G : Type 0} (ps : List MemberPtr) (u : ℕ) (r : Room G)
    → Map.find u (waitlist_all ps r).members ≡ waitlisted (has_id u ps) (Map.find u r.members)
unfolding waitlist_all waitlisted
waitlist_all-found [] u r = refl
waitlist_all-found (p ∷ ps) u r =
    waitlist_all-found ps u (change (with_status player_waitlist) p.id r)
    ∙ ap (waitlisted (has_id u ps)) (find-change (with_status player_waitlist) u p.id r (λ x. refl))
    ∙ waitlisted_twice (p.id == u) (has_id u ps) (Map.find u r.members)

append-drop : (k : ℕ) (s : List MemberPtr) → s ≡ take k s ++ drop k s
append-drop zero s = refl
append-drop (suc k) [] = refl
append-drop (suc k) (p ∷ s) = ap (◌∷◌ p) (append-drop k s)

length-drop : (k : ℕ) (s : List MemberPtr) → length (drop k s) ≡ length s - k
length-drop zero s = omega arith
length-drop (suc k) [] = omega arith
length-drop (suc k) (p ∷ s) = omega (arith, length-drop k s)

overflow_lem : (n limit : ℕ) → n < 2 ^ 63 → limit < 2 ^ 63 → overflow n limit ≡ n - limit
unfolding overflow
overflow_lem n limit h k = ground arith

module _ {G : Type 0} where
  set_player_limit-first :
      (limit : ℕ) (r : Room G)
      → 0 < limit
      → set_player_limit limit r ≡ waitlist_first (overflow (player_count r) limit) r
  unfolding set_player_limit
  set_player_limit-first limit r h = ground arith

  waitlist_first_ok :
      (k : ℕ) (r : Room G)
      → k ≤ length r.cached_players
      → waitlist_first k r ≡ ok tt (waitlist_all (take k r.cached_players) r)
  unfolding waitlist_first
  waitlist_first_ok k r h = ground arith

  waitlist_first_undefined :
      (k : ℕ) (r : Room G) → length r.cached_players < k → waitlist_first k r ≡ undefined
  unfolding waitlist_first
  waitlist_first_undefined k r h = ground arith

module _ {G : Type 0} (limit : ℕ) (r : Room G) where
  -- Lowering the limit of a well-formed room in which nobody is disqualified: the players who joined
  -- first get the status of the waitlist, as many as there are above the new limit, and nobody else
  -- changes; the count comes down to the limit. The room stays well formed; but the limit of the room is the old one.
  pub set_player_limit_lem :
      0 < limit
      → limit < 2 ^ 63
      → player_count r < 2 ^ 63
      → r.players_disqualified ≡ 0
      → Inv r
      → (r' : Room G) × (set_player_limit limit r ≡ ok tt r')
        × (r'.cached_players ≡ drop (player_count r - limit) r.cached_players)
        × ((u : ℕ)
            → Map.find u r'.members ≡ (
                if has_id u (take (player_count r - limit) r.cached_players)
                then on_found (with_status player_waitlist) (Map.find u r.members)
                else Map.find u r.members))
        × (player_count r' ≤ limit)
        × Inv r'
        × (r'.player_limit ≡ r.player_limit)
  unfolding player_count waitlisted
  set_player_limit_lem pos small few none_out v =
      let k : ℕ = player_count r - limit in
      let r' : Room G = waitlist_all (take k r.cached_players) r in
      let mv : Moves r r' = waitlist_all-Moves (take k r.cached_players) r in
      let (players, out) =
        waitlist_all-players (take k r.cached_players) (drop k r.cached_players) r
          (append-drop k r.cached_players) v in
      (
        r',
        set_player_limit-first limit r pos
            ∙ ap (λ n. waitlist_first n r) (overflow_lem (player_count r) limit few small)
            ∙ waitlist_first_ok k r (ground (arith, none_out)),
        players,
        λ u. waitlist_all-found (take k r.cached_players) u r,
        ground (arith, ap length players, out, length-drop k r.cached_players, none_out),
        mv.inv v,
        mv.player_limit,
      )

  -- The other case: where the new limit is below the number of players who are disqualified, there are
  -- fewer active players than set_player_limit wants to move, and it runs past the end of their set.
  pub set_player_limit-undefined :
      0 < limit
      → limit < r.players_disqualified
      → length r.cached_players + r.players_disqualified < 2 ^ 63
      → set_player_limit limit r ≡ undefined
  unfolding player_count
  set_player_limit-undefined pos below few =
      set_player_limit-first limit r pos
      ∙ ap (λ n. waitlist_first n r)
          (overflow_lem (player_count r) limit (omega arith) (omega arith))
      ∙ waitlist_first_undefined (player_count r - limit) r (omega arith)
