-- ===== src/Chat/Room/Leaves.antt =====
-- Room::_remove_user keeps a room well formed, takes the user out, and hands the room on.
use mathlib.Core.Path.{subst}
use social_gaming_platform.Prelude.{
  ℕ, List, [], ◌∷◌, ◌≡◌, ◌≢◌, refl, Option, none, some, sym, ap, ◌∙◌, inl, inr, Option-cases,
  Bool-cases, Bool, true, false, if◌then◌else◌, ◌==◌, ==_iff, ◌||◌,
}
use social_gaming_platform.Run.{Outcome, Run, ok, undefined, pure, continue}
use social_gaming_platform.Std.PtrSet.{MemberPtr}
use social_gaming_platform.Chat.Member.{Member, ptr, is_player, is_disqualified}
use social_gaming_platform.Chat.Member.Map
use social_gaming_platform.Chat.Member.Cache.{cache_of}
use social_gaming_platform.Chat.Room.{Room, World, on_room, is_game_active}
use social_gaming_platform.Chat.Room.Caches.{cached_remove}
use social_gaming_platform.Chat.Room.Invariant.{Inv, anyone, cached_remove-Inv}
use social_gaming_platform.Chat.Room.Waitlist.{flush_waitlist}
use social_gaming_platform.Chat.Room.Moves.{
  Moves, Playable, Moves-refl, Moves-trans, flush_waitlist-Moves,
}
use social_gaming_platform.Chat.Room.Good.{Good, Owned, owner-Inv, Moves-Owned}
use social_gaming_platform.Chat.Room.Membership.{
  Signals, IsQuiet, set_owner, hand_over, shift_from, shift_owner, call_game, notify_game,
  tell_game, read_freed, remove_member, remove_user,
}
use social_gaming_platform.Game.Controller.{Controller, QuitsCleanly}
use social_gaming_platform.Chat.Room.UserSet.{AllOwned, AllOwned-users, users-ne-nil}

-- The owner that is left behind: it may be the user who went, `u`.
record Leaving {G : Type 0} (u : ℕ) (r : Room G) : Type 0 where
  inv : Inv r
  playable : Playable r
  nobody : r.owner ≡ none → r.members ≡ []
  somebody : (p : MemberPtr) → r.owner ≡ some p → p.id ≢ u → Owned (some p) r.members

module _ {G : Type 0} where
  Moves-Leaving : {u : ℕ} {r r' : Room G} → Moves r r' → Leaving u r → Leaving u r'
  Moves-Leaving {u} {r} {r'} mv l = record {
    inv = mv.inv l.inv;
    playable = mv.playable l.playable;
    nobody = λ e. Moves-Owned none mv (l.nobody (sym mv.owner ∙ e));
    somebody = λ p e h. Moves-Owned (some p) mv (l.somebody p (sym mv.owner ∙ e) h);
  }

  -- The room right after the erasure.
  erased : ℕ → Member → Room G → Room G
  erased u m r = record (cached_remove m r) { members = Map.erase u r.members }

  erased-Leaving :
      (u : ℕ) (m : Member) (r : Room G)
      → Map.find u r.members ≡ some m
      → Good r
      → Leaving u (erased u m r)
  unfolding erased cached_remove Map.erase
  erased-Leaving u m r found g =
      let uid : m.user ≡ u = Map.find-user u r.members m found in
      record {
        inv =
            subst (λ v. Inv (record (cached_remove m r) { members = Map.erase v r.members })) uid
              (cached_remove-Inv m r (cc (uid, found)) g.inv);
        playable = g.playable;
        nobody = λ e.
            let empty : r.members ≡ [] = subst (λ o. Owned o r.members) e g.owned in
            ap (Map.erase u) empty;
        somebody = λ p e h.
            let (x, read, since) = subst (λ o. Owned o r.members) e g.owned in
            (x, Map.find-erase_ne p.id u r.members h ∙ read, since);
      }

module _ {G : Type 0} (s : Signals G) (q : IsQuiet s) where
  -- What a step leaves: it returns, the room is well formed, and the members are as they were.
  abbrev Returns : World G → Outcome (World G) (Unit {0}) → Type 0
  Returns w o = (w' : World G) × (o ≡ ok tt w') × Good w'.room × (w'.room.members ≡ w.room.members)

  set_owner-Returns :
      (p : MemberPtr) (w : World G)
      → Inv w.room
      → Playable w.room
      → Owned (some p) w.room.members
      → Returns w (set_owner s p w)
  unfolding set_owner
  set_owner-Returns p w v pl (m, found, since) = (
    s.on_owner_change p (on_room (λ r. record r { owner = some p }) w),
    rw (found, set_owner) refl,
    rw q.owner_change
        (record { inv = owner-Inv (some p) v; owned = (m, found, since); playable = pl }),
    rw q.owner_change refl,
  )

  hand_over-Returns :
      (ms : List Member) (users : List MemberPtr) (w : World G)
      → w.room.members ≡ ms
      → w.room.cached_users ≡ users
      → Inv w.room
      → Playable w.room
      → Returns w (hand_over s ms users w)
  unfolding hand_over AllOwned
  hand_over-Returns [] users w em eu v pl = (
    on_room (λ r. record r { owner = none }) w,
    refl,
    record { inv = owner-Inv none v; owned = em; playable = pl },
    refl,
  )
  hand_over-Returns (m ∷ ms) [] w em eu v pl =
      absurd (users-ne-nil m ms (ap (cache_of anyone) (sym em) ∙ sym v.users_ok ∙ eu))
  hand_over-Returns (m ∷ ms) (p ∷ ps) w em eu v pl =
      let all_owned : AllOwned (p ∷ ps) w.room.members =
        subst (λ us. AllOwned us w.room.members) (sym v.users_ok ∙ eu)
          (AllOwned-users w.room.members v.distinct) in
      set_owner-Returns p w v pl all_owned.0

  shift_from-Returns :
      (u : ℕ) (o : Option MemberPtr) (w : World G)
      → w.room.owner ≡ o
      → Leaving u w.room
      → Returns w (shift_from s true u o w)
  unfolding shift_from
  shift_from-Returns u none w e l =
      (w, refl, record { inv = l.inv; owned = rw e (l.nobody e); playable = l.playable }, refl)
  shift_from-Returns u (some o) w e l = elim (Bool-cases (o.id == u)) [
    | inl hit ↦ rw hit (hand_over-Returns _ _ w refl refl l.inv l.playable)
    | inr miss ↦ (
      w,
      rw miss refl,
      record {
        inv = l.inv;
        owned = rw e (l.somebody o e (λ h. cc (miss, (==_iff o.id u).1 h)));
        playable = l.playable;
      },
      refl,
    )
  ]

  shift_owner-Returns :
      (u : ℕ) (w : World G) → Leaving u w.room → Returns w (shift_owner s true u w)
  unfolding shift_owner
  shift_owner-Returns u w l = shift_from-Returns u w.room.owner w refl l

-- What is left of a method after a step that returned.
then_ok :
    {W A B : Type 0} {o : Outcome W A} {a : A} {w : W} (f : A → W → Outcome W B)
    → o ≡ ok a w
    → continue o f ≡ f a w
then_ok f e = rw e refl

-- A call of a game that is there.
call_game_ok :
    {G A : Type 0} (P : World G → Type 0) (op : Run (World G) A) (a : A) (w : World G)
    → ((w' : World G) × (op w ≡ ok a w') × P w')
    → w.room.game ≢ none
    → (w' : World G) × (call_game op w ≡ ok a w') × P w'
unfolding call_game
call_game_ok P op a w (w', e, p) there = elim (Option-cases w.room.game) [
  | inl n ↦ absurd (there n)
  | inr (g, s) ↦ (w', rw (s, call_game) e, p)
]

module _ {G : Type 0} (c : Controller G) (quits : QuitsCleanly c) where
  tell_game_ok :
      (b : Bool) (m : Member) (w : World G)
      → (b ≡ true → w.room.game ≢ none)
      → (w' : World G) × ((if b then read_freed true (tell_game c m) else pure tt) w ≡ ok tt w')
        × Moves w.room w'.room
  tell_game_ok true m w there = elim (Bool-cases (is_player m || is_disqualified m)) [
    | inl p ↦ rw p (
        call_game_ok (λ w'. Moves w.room w'.room) (c.on_player_quit m.user) tt w
          (quits.at m.user w (there refl)) (there refl))
    | inr p ↦ (w, rw p refl, Moves-refl w.room)
  ]
  tell_game_ok false m w there = (w, refl, Moves-refl w.room)

  notify_game_ok :
      (m : Member) (w : World G)
      → Playable w.room
      → (w' : World G) × (notify_game c true m w ≡ ok tt w') × Moves w.room w'.room
  unfolding notify_game is_game_active
  notify_game_ok m w pl = tell_game_ok w.room.game_started m w pl

module _ {G : Type 0} (s : Signals G) (q : IsQuiet s) (c : Controller G)
    (quits : QuitsCleanly c) where
  remove_member-Good :
      (u : ℕ) (m : Member) (w : World G)
      → Map.find u w.room.members ≡ some m
      → Good w.room
      → (w' : World G) × (remove_member s c true u m w ≡ ok tt w')
        × Good w'.room
        × (Map.find u w'.room.members ≡ none)
  unfolding remove_member erased cached_remove
  remove_member-Good u m w found g =
      let w₁ : World G = on_room (erased u m) w in
      let (w₂, e₂, mv₂) = notify_game_ok c quits m w₁ g.playable in
      let w₃ : World G = on_room flush_waitlist w₂ in
      let mv : Moves w₁.room w₃.room = Moves-trans _ _ _ mv₂ (flush_waitlist-Moves w₂.room) in
      let (w₄, e₄, good, same) =
        shift_owner-Returns s q u w₃ (Moves-Leaving mv (erased-Leaving u m w.room found g)) in
      (
        w₄,
        then_ok (λ _ w'. shift_owner s true u (on_room flush_waitlist w')) e₂ ∙ e₄,
        good,
        rw same (mv.absent u (Map.find-erase u w.room.members g.inv.distinct)),
      )

  abbrev Gone : Bool → ℕ → Member → World G → Type 0
  Gone b u m v =
      (w' : World G) × (remove_member s c b u m v ≡ ok tt w')
      × Good w'.room
      × (Map.find u w'.room.members ≡ none)

  -- Removing a user returns, from a room that is well formed, if the erased entry still reads as it was, the
  -- listeners only send messages and the game takes the quitting of a player without a throw: the user is then no member, the cached
  -- sets and the counter agree with the members that are left, and the owner is one of them, or there is
  -- none because the room is empty.
  pub remove_user-Good :
      (u : ℕ) (w : World G)
      → w.freed_reads ≡ true
      → Good w.room
      → (w' : World G) × (remove_user s c u w ≡ ok tt w')
        × Good w'.room
        × (Map.find u w'.room.members ≡ none)
  unfolding remove_user
  remove_user-Good u w reads g = elim (Option-cases (Map.find u w.room.members)) [
    | inl e ↦ (w, rw (e, remove_user) refl, g, e)
    | inr (m, e) ↦
        let same : (s.on_member_leave (ptr m) w).room ≡ w.room = q.member_leave (ptr m) w in
        rw (e, remove_user)
          (subst (λ b. Gone b u m (s.on_member_leave (ptr m) w)) (sym reads)
            (remove_member-Good u m (s.on_member_leave (ptr m) w)
              (ap (λ r. Map.find u r.members) same ∙ e) (subst Good (sym same) g)))
  ]

module _ {G : Type 0} (s : Signals G) where
  shift_from-undefined :
      (u : ℕ) (o : Option MemberPtr) (w : World G) → o ≢ none → shift_from s false u o w ≡ undefined
  unfolding shift_from
  shift_from-undefined u none w h = absurd (h refl)
  shift_from-undefined u (some o) w h = refl

-- A room with a member has an owner.
has_owner :
    {G : Type 0} (u : ℕ) (m : Member) (r : Room G) (o : Option MemberPtr)
    → r.owner ≡ o
    → Owned o r.members
    → Map.find u r.members ≡ some m
    → r.owner ≢ none
unfolding Map.find
has_owner u m r none e empty found h = cc (ap (Map.find u) empty, found)
has_owner u m r (some p) e own found h = cc (e, h)

module _ {G : Type 0} (s : Signals G) (q : IsQuiet s) (c : Controller G) where
  -- What follows the erasure, by whether a game is on.
  rest-undefined :
      (b : Bool) (u : ℕ) (m : Member) (w : World G)
      → w.room.owner ≢ none
      → continue
          ((if b then read_freed false (tell_game c m) else pure tt) w)
          (λ _ w'. shift_owner s false u (on_room flush_waitlist w'))
        ≡ undefined
  unfolding shift_owner
  rest-undefined true u m w own = refl
  rest-undefined false u m w own =
      shift_from-undefined s u (flush_waitlist w.room).owner (on_room flush_waitlist w)
        (λ n. own (sym (flush_waitlist-Moves w.room).owner ∙ n))

  remove_member-undefined :
      (u : ℕ) (m : Member) (w : World G)
      → Map.find u w.room.members ≡ some m
      → Good w.room
      → remove_member s c false u m w ≡ undefined
  unfolding remove_member notify_game cached_remove is_game_active erased
  remove_member-undefined u m w found g =
      rest-undefined w.room.game_started u m (on_room (erased u m) w)
        (has_owner u m w.room w.room.owner refl g.owned found)

  -- Removing a member of a well-formed room reads the entry that it has just erased, to compare the user
  -- with the owner if not earlier: where the entry does not read as it was any more, this is undefined,
  -- whoever the member is, and whether a game is on or not. The listeners only send messages.
  pub remove_user-undefined :
      (u : ℕ) (m : Member) (w : World G)
      → w.freed_reads ≡ false
      → Map.find u w.room.members ≡ some m
      → Good w.room
      → remove_user s c u w ≡ undefined
  unfolding remove_user
  remove_user-undefined u m w lost found g =
      let same : (s.on_member_leave (ptr m) w).room ≡ w.room = q.member_leave (ptr m) w in
      rw (found, remove_user)
        (ap (λ b. remove_member s c b u m (s.on_member_leave (ptr m) w)) lost
          ∙ remove_member-undefined u m (s.on_member_leave (ptr m) w)
              (ap (λ r. Map.find u r.members) same ∙ found) (subst Good (sym same) g))
