-- ===== src/Chat/Room/Joins.antt =====
-- Room::add_user keeps a room well formed.
use social_gaming_platform.Prelude.{
  ℕ, ◌+◌, Bool, true, false, List, ◌<◌, ◌≡◌, refl, none, some, arith, sym, ap, ◌∙◌, inl, inr,
  length, Option-cases, ==_iff,
}
use social_gaming_platform.Run.{Outcome, ok, threw, undefined}
use mathlib.Core.Path.{subst}
use social_gaming_platform.Run.Keeps.{Holds, Holds-continue, Holds-chain}
use social_gaming_platform.Std.PtrSet.{MemberPtr}
use social_gaming_platform.Chat.Member.{Member, Status, ptr}
use social_gaming_platform.Chat.Member.Map
use social_gaming_platform.Chat.Member.Map.{FreshTime}
use social_gaming_platform.Chat.Room.{Room, World, size_mod, is_game_active}
use social_gaming_platform.Chat.Room.Caches.{cached_add}
use social_gaming_platform.Chat.Room.Invariant.{Inv, cached_add-Inv, assign-Inv}
use social_gaming_platform.Chat.Room.Waitlist.{with_status}
use social_gaming_platform.Chat.Room.Moves.{
  Moves, Playable, Moves-refl, change-Moves, assign-present, assign-absent,
}
use social_gaming_platform.Chat.Room.Good.{Good, Owned, owner-Inv, Moves-Good}
use social_gaming_platform.Chat.Room.Membership.{
  Signals, IsQuiet, Join, as_player, as_player_waiting, as_spectator, set_owner, claim_ownership,
  new_member, join, suppress, enclose, enter, choose_status, player_place, spectator_place,
  join_status, add_user,
}

module _ {G : Type 0} where
  pub suppress-Moves : (b : Bool) (u : ℕ) (r : Room G) → Moves r (suppress b u r)
  unfolding suppress
  suppress-Moves b u r = elim (Option-cases (Map.find u r.members)) [
    | inl e ↦ rw (e, suppress) (Moves-refl r)
    | inr (m, e) ↦
        let m' : Member = record m { suppress_broadcasts = b } in
        rw (e, suppress)
          (record {
            owner = refl;
            player_limit = refl;
            spectator_limit = refl;
            present = assign-present u m m' r.members e refl refl;
            absent = assign-absent u m m' r.members e refl;
            inv = assign-Inv m m' r (cc (e, Map.find-user u r.members m e)) refl refl refl;
            playable = λ h. h;
          })
  ]

-- An owner, where there is one, is in the room.
abbrev Claims : {G : Type 0} → Room G → Type 0
Claims r = (p : MemberPtr) → r.owner ≡ some p → Owned (some p) r.members

module _ {G : Type 0} (s : Signals G) (q : IsQuiet s) where
  set_owner-Good :
      (p : MemberPtr) (w : World G)
      → Inv w.room
      → Playable w.room
      → Owned (some p) w.room.members
      → Holds (λ w'. Good w'.room) (set_owner s p w)
  unfolding set_owner
  set_owner-Good p w v pl (m, found, since) =
      rw (found, set_owner)
        (rw q.owner_change
          (record { inv = owner-Inv (some p) v; owned = (m, found, since); playable = pl }))

  claim_ownership-Good :
      (p : MemberPtr) (w : World G)
      → Inv w.room
      → Playable w.room
      → Owned (some p) w.room.members
      → Claims w.room
      → Holds (λ w'. Good w'.room) (claim_ownership s p w)
  unfolding claim_ownership
  claim_ownership-Good p w v pl h claims = elim (Option-cases w.room.owner) [
    | inl e ↦ rw (e, claim_ownership) (set_owner-Good p w v pl h)
    | inr (o, e) ↦
        rw (e, claim_ownership) (record { inv = v; owned = rw e (claims o e); playable = pl })
  ]

  -- A pointer to a member stays good when another member joins.
  Owned-insert :
      (m : Member) (p : MemberPtr) (ms : List Member)
      → Map.find m.user ms ≡ none
      → Owned (some p) ms
      → Owned (some p) (Map.insert m ms)
  Owned-insert m p ms new (x, e, since) = (x, Map.find-insert p.id m ms new ∙ ground arith, since)

  Claims-insert :
      (m : Member) (r : Room G) (p : MemberPtr)
      → Map.find m.user r.members ≡ none
      → Good r
      → r.owner ≡ some p
      → Owned (some p) (Map.insert m r.members)
  Claims-insert m r p new g e =
      Owned-insert m p r.members new (subst (λ o. Owned o r.members) e g.owned)

  join-Good :
      (now u : ℕ) (status : Status) (w : World G)
      → Map.find u w.room.members ≡ none
      → FreshTime now w.room.members
      → length w.room.members + 1 < size_mod
      → Good w.room
      → Holds (λ w'. Good w'.room) (join s now u status w)
  unfolding join cached_add
  join-Good now u status w new fresh room g =
      let m : Member = new_member now u status w in
      Holds-continue (claim_ownership s (ptr m) _) _
        (claim_ownership-Good (ptr m) _ (cached_add-Inv m w.room new fresh room g.inv) g.playable
          (m, Map.find-insert u m w.room.members new ∙ rw ((==_iff u u).1 refl) refl, refl)
          (λ p e. Claims-insert m w.room p new g e))
        (λ _. record {
          at = λ w' g'.
              Moves-Good (suppress-Moves false u (s.on_member_join (ptr m) w').room)
                (subst Good (sym (q.member_join (ptr m) w')) g');
        })

choose_status-reads :
    {W : Type 0} (method : Join) (a b c : Bool) (w : W)
    → Holds (λ w'. w' ≡ w) (choose_status method a b c w)
unfolding choose_status
choose_status-reads as_player true b true w = refl
choose_status-reads as_player true b false w = refl
choose_status-reads as_player false b c w = refl
choose_status-reads as_spectator a true c w = refl
choose_status-reads as_spectator a false c w = refl
choose_status-reads as_player_waiting true b c w = refl
choose_status-reads as_player_waiting false true c w = refl
choose_status-reads as_player_waiting false false c w = refl

-- The switch of add_user only reads the room.
pub join_status-reads :
    {G : Type 0} (method : Join) (u : ℕ) (r : Room G)
    → Holds (λ r'. r' ≡ r) (join_status method u r)
unfolding join_status
join_status-reads method u r =
    choose_status-reads method (player_place u r) (spectator_place u r) (is_game_active r) r

module _ {G A : Type 0} (w : World G) where
  in_world-reads :
      (o : Outcome (Room G) A) → Holds (λ r'. r' ≡ w.room) o → Holds (λ w'. w' ≡ w) (enclose w o)
  in_world-reads (ok a r) h = ap (λ x. record w { room = x }) h
  in_world-reads (threw e r) h = ap (λ x. record w { room = x }) h
  in_world-reads undefined h = h

-- The branches of add_user after the switch.
enter-Good :
    {G : Type 0} (s : Signals G) (q : IsQuiet s) (now u : ℕ) (status : Status) (w : World G)
    → FreshTime now w.room.members
    → length w.room.members + 1 < size_mod
    → Good w.room
    → Holds (λ w'. Good w'.room) (enter s now u status w)
unfolding enter
enter-Good s q now u status w fresh room g = elim (Option-cases (Map.find u w.room.members)) [
  | inl e ↦ rw (e, enter) (join-Good s q now u status w e fresh room g)
  | inr (m, e) ↦
      rw (e, enter) (Moves-Good (change-Moves (with_status status) u w.room (λ x. (refl, refl))) g)
]

-- Whatever the method of joining, and whether the join is accepted, refused or a change of status, the
-- room stays well formed and nothing undefined happens. The clock must show a time at which no present
-- member joined, and there must be room for one more entry under the width of size_t.
pub add_user-Good :
    {G : Type 0} (s : Signals G) (q : IsQuiet s) (now u : ℕ) (method : Join) (w : World G)
    → FreshTime now w.room.members
    → length w.room.members + 1 < size_mod
    → Good w.room
    → Holds (λ w'. Good w'.room) (add_user s now u method w)
unfolding add_user
add_user-Good {G} s q now u method w fresh room g =
    Holds-chain {P = λ w'. w' ≡ w} _ _ (in_world-reads w _ (join_status-reads method u w.room))
      (λ w' e. rw e g) (λ status w' e. rw e (enter-Good s q now u status w fresh room g))
