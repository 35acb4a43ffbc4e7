-- ===== src/Chat/Room/Moves.antt =====
-- The methods of `Waitlist` keep the bookkeeping of a room, its users and its owner.
use social_gaming_platform.Prelude.{
  ℕ, ◌≡◌, refl, ◌≢◌, Bool, true, false, none, some, List, [], ◌∷◌, arith, ◌∙◌, inl, inr,
  Option-cases, Bool-cases, ◌==◌, ltb, if◌then◌else◌, ◌||◌,
}
use social_gaming_platform.Std.PtrSet.{MemberPtr}
use social_gaming_platform.Chat.Member.{Member, player, player_waitlist, is_player, is_disqualified}
use social_gaming_platform.Chat.Member.Map
use social_gaming_platform.Chat.Room.{Room, is_game_active, player_count, spectator_count}
use social_gaming_platform.Chat.Room.Caches.{cached_remove, cached_add, guarded}
use social_gaming_platform.Chat.Room.Invariant.{Inv, guarded-Inv}
use social_gaming_platform.Chat.Room.Waitlist.{
  with_status, with_disqualified, change, flush_queue, flush_waitlist, waitlist_all,
  disqualify_player, reset_player, reset_all, reset_players,
}

-- A game that is on is there.
abbrev pub Playable : {G : Type 0} → Room G → Type 0
Playable r = r.game_started ≡ true → r.game ≢ none

-- What guarded changes leave alone: owner and limits, who is in the room and since when, the
-- bookkeeping, and that a game that is on is there.
pub record Moves {G : Type 0} (r r' : Room G) : Type 0 where
  pub owner : r'.owner ≡ r.owner
  pub player_limit : r'.player_limit ≡ r.player_limit
  pub spectator_limit : r'.spectator_limit ≡ r.spectator_limit
  pub present :
      (u : ℕ) (m : Member)
      → Map.find u r.members ≡ some m
      → (m' : Member) × (Map.find u r'.members ≡ some m') × (m'.since ≡ m.since)
  pub absent : (u : ℕ) → Map.find u r.members ≡ none → Map.find u r'.members ≡ none
  pub inv : Inv r → Inv r'
  pub playable : Playable r → Playable r'

module _ (u : ℕ) (m m' : Member) (ms : List Member) (found : Map.find u ms ≡ some m) where
  read_assigned :
      m'.user ≡ m.user
      → (v : ℕ) → Map.find v (Map.assign m' ms) ≡ (if m'.user == v then some m' else Map.find v ms)
  read_assigned eu v = Map.find-assign v m' ms (λ e. cc (found, e, eu, Map.find-user u ms m found))

  pub assign-present :
      m'.user ≡ m.user
      → m'.since ≡ m.since
      → (v : ℕ) (x : Member) → Map.find v ms ≡ some x
      → (x' : Member) × (Map.find v (Map.assign m' ms) ≡ some x') × (x'.since ≡ x.since)
  assign-present eu es v x e = elim (Bool-cases (m'.user == v)) [
    | inl hit ↦ (m', rw (read_assigned eu v, hit) refl, ground (arith, Map.find-user u ms m found))
    | inr miss ↦ (x, rw (read_assigned eu v, miss) e, refl)
  ]

  pub assign-absent :
      m'.user ≡ m.user → (v : ℕ) → Map.find v ms ≡ none → Map.find v (Map.assign m' ms) ≡ none
  assign-absent eu v e = rw (read_assigned eu v) (ground (arith, Map.find-user u ms m found))

module _ {G : Type 0} where
  pub Moves-refl : (r : Room G) → Moves r r
  Moves-refl r = record {
    owner = refl;
    player_limit = refl;
    spectator_limit = refl;
    present = λ u m e. (m, e, refl);
    absent = λ u e. e;
    inv = λ v. v;
    playable = λ h. h;
  }

  pub Moves-trans : (a b c : Room G) → Moves a b → Moves b c → Moves a c
  Moves-trans a b c p q = record {
    owner = q.owner ∙ p.owner;
    player_limit = q.player_limit ∙ p.player_limit;
    spectator_limit = q.spectator_limit ∙ p.spectator_limit;
    present = λ u m e.
        let (m', e', s') = p.present u m e in
        let (m'', e'', s'') = q.present u m' e' in (m'', e'', s'' ∙ s');
    absent = λ u e. q.absent u (p.absent u e);
    inv = λ v. q.inv (p.inv v);
    playable = λ h. q.playable (p.playable h);
  }

  Moves-if : (b : Bool) (r x y : Room G) → Moves r x → Moves r y → Moves r (if b then x else y)
  Moves-if true r x y p q = p
  Moves-if false r x y p q = q

  -- A change that keeps user and join time.
  pub guarded-Moves :
      (f : Member → Member) (u : ℕ) (m : Member) (r : Room G)
      → ((x : Member) → ((f x).user ≡ x.user) × ((f x).since ≡ x.since))
      → Map.find u r.members ≡ some m
      → Moves r (guarded f m r)
  unfolding guarded cached_remove cached_add
  guarded-Moves f u m r keep found = record {
    owner = refl;
    player_limit = refl;
    spectator_limit = refl;
    present = assign-present u m (f m) r.members found (keep m).0 (keep m).1;
    absent = assign-absent u m (f m) r.members found (keep m).0;
    inv = guarded-Inv f m r (cc (Map.find-user u r.members m found, found)) (keep m).0 (keep m).1;
    playable = λ h. h;
  }

  pub change-Moves :
      (f : Member → Member) (u : ℕ) (r : Room G)
      → ((x : Member) → ((f x).user ≡ x.user) × ((f x).since ≡ x.since))
      → Moves r (change f u r)
  unfolding change
  change-Moves f u r keep = elim (Option-cases (Map.find u r.members)) [
    | inl e ↦ rw (e, change) (Moves-refl r)
    | inr (m, e) ↦ rw (e, change) (guarded-Moves f u m r keep e)
  ]

  pub flush_queue-Moves : (queue : List MemberPtr) (r : Room G) → Moves r (flush_queue queue r)
  unfolding flush_queue
  flush_queue-Moves [] r = Moves-refl r
  flush_queue-Moves (p ∷ queue) r = elim (Bool-cases (ltb (player_count r) r.player_limit)) [
    | inl e ↦ rw e (
        Moves-trans _ _ _ (change-Moves (with_status player) p.id r (λ x. (refl, refl)))
          (flush_queue-Moves queue (change (with_status player) p.id r)))
    | inr e ↦ rw e (Moves-refl r)
  ]

  pub flush_waitlist-Moves : (r : Room G) → Moves r (flush_waitlist r)
  unfolding flush_waitlist
  flush_waitlist-Moves r = elim (Bool-cases (is_game_active r || spectator_count r == 0)) [
    | inl e ↦ rw e (Moves-refl r)
    | inr e ↦ rw e (flush_queue-Moves _ r)
  ]

  pub waitlist_all-Moves : (ps : List MemberPtr) (r : Room G) → Moves r (waitlist_all ps r)
  unfolding waitlist_all
  waitlist_all-Moves [] r = Moves-refl r
  waitlist_all-Moves (p ∷ ps) r =
      Moves-trans _ _ _ (change-Moves (with_status player_waitlist) p.id r (λ x. (refl, refl)))
        (waitlist_all-Moves ps (change (with_status player_waitlist) p.id r))

  pub disqualify_player-Moves : (u : ℕ) (r : Room G) → Moves r (disqualify_player u r)
  unfolding disqualify_player
  disqualify_player-Moves u r = elim (Option-cases (Map.find u r.members)) [
    | inl e ↦ rw (e, disqualify_player) (Moves-refl r)
    | inr (m, e) ↦
        rw (e, disqualify_player)
          (Moves-if (is_player m) r _ r
            (guarded-Moves (with_disqualified true) u m r (λ x. (refl, refl)) e) (Moves-refl r))
  ]

  pub reset_player-Moves : (u : ℕ) (r : Room G) → Moves r (reset_player u r)
  unfolding reset_player
  reset_player-Moves u r = elim (Option-cases (Map.find u r.members)) [
    | inl e ↦ rw (e, reset_player) (Moves-refl r)
    | inr (m, e) ↦
        rw (e, reset_player)
          (Moves-if (is_disqualified m) r _ r
            (guarded-Moves (with_disqualified false) u m r (λ x. (refl, refl)) e) (Moves-refl r))
  ]

  pub reset_all-Moves : (ms : List Member) (r : Room G) → Moves r (reset_all ms r)
  unfolding reset_all
  reset_all-Moves [] r = Moves-refl r
  reset_all-Moves (m ∷ ms) r =
      Moves-trans _ _ _ (reset_player-Moves m.user r) (reset_all-Moves ms (reset_player m.user r))

  pub reset_players-Moves : (r : Room G) → Moves r (reset_players r)
  unfolding reset_players
  reset_players-Moves r = reset_all-Moves r.members r
