-- ===== src/Chat/Room/Entered.antt =====
-- Whoever joins a room is a member of it (Room::add_user, module/chat/src/Room.cpp).
use social_gaming_platform.Prelude.{
  ℕ, false, Option, none, some, ==_iff, ◌≡◌, refl, ap, ◌∙◌, inl, inr, Option-cases,
}
use social_gaming_platform.Run.{Outcome, Run, ok, threw, undefined, continue}
use social_gaming_platform.Std.PtrSet.{MemberPtr}
use social_gaming_platform.Chat.Member.{Member, Status, ptr}
use social_gaming_platform.Chat.Member.Map
use social_gaming_platform.Chat.Room.{Room, World, on_room}
use social_gaming_platform.Chat.Room.Caches.{cached_add}
use social_gaming_platform.Chat.Room.Waitlist.{with_status}
use social_gaming_platform.Chat.Room.Moves.{Moves, change-Moves}
use social_gaming_platform.Chat.Room.Joins.{suppress-Moves}
use social_gaming_platform.Chat.Room.Membership.{
  Join, Signals, IsQuiet, new_member, set_owner, claim_ownership, join, enter, in_world,
  join_status, add_user,
}

-- What holds of the state if the method returns.
abbrev pub OnReturn : {W A : Type 0} → (W → Type 0) → Outcome W A → Type 0
OnReturn P (ok a w) = P w
OnReturn P (threw e w) = Unit {0}
OnReturn P undefined = Unit {0}

OnReturn-continue :
    {W A B : Type 0} (P Q : W → Type 0) (o : Outcome W A) (k : A → Run W B)
    → OnReturn P o
    → ((a : A) (w : W) → P w → OnReturn Q (k a w))
    → OnReturn Q (continue o k)
OnReturn-continue P Q (ok a w) k h f = f a w h
OnReturn-continue P Q (threw e w) k h f = tt
OnReturn-continue P Q undefined k h f = tt

always : {W A : Type 0} (o : Outcome W A) → OnReturn (λ w. Unit {0}) o
always (ok a w) = tt
always (threw e w) = tt
always undefined = tt

abbrev pub IsMember : {G : Type 0} → ℕ → Room G → Type 0
IsMember u r = (m : Member) × (Map.find u r.members ≡ some m)

module _ {G : Type 0} where
  moved : (u : ℕ) {r r' : Room G} → Moves r r' → IsMember u r → IsMember u r'
  moved u mv (m, e) = let (m', e', since) = mv.present u m e in (m', e')

module _ {G : Type 0} (s : Signals G) (q : IsQuiet s) where
  set_owner-members :
      (p : MemberPtr) (o : Option Member) (w : World G)
      → Map.find p.id w.room.members ≡ o
      → OnReturn (λ w'. w'.room.members ≡ w.room.members) (set_owner s p w)
  unfolding set_owner
  set_owner-members p none w e = rw (e, set_owner) tt
  set_owner-members p (some m) w e =
      rw (e, set_owner)
        (ap (λ r. r.members) (q.owner_change p (on_room (λ r. record r { owner = some p }) w)))

  claim_ownership-members :
      (p : MemberPtr) (w : World G)
      → OnReturn (λ w'. w'.room.members ≡ w.room.members) (claim_ownership s p w)
  unfolding claim_ownership
  claim_ownership-members p w = by_owner w.room.owner
    where
      by_owner :
          (o : Option MemberPtr)
          → OnReturn
              (λ w'. w'.room.members ≡ w.room.members)
              (elim o [ none ↦ set_owner s p w | some x ↦ ok tt w ])
      by_owner none = set_owner-members p (Map.find p.id w.room.members) w refl
      by_owner (some x) = refl

  join-IsMember :
      (now u : ℕ) (status : Status) (w : World G)
      → Map.find u w.room.members ≡ none
      → OnReturn (λ w'. IsMember u w'.room) (join s now u status w)
  unfolding join cached_add
  join-IsMember now u status w new =
      let m : Member = new_member now u status w in
      let found : Map.find u (Map.insert m w.room.members) ≡ some m =
        Map.find-insert u m w.room.members new ∙ rw ((==_iff u u).1 refl) refl in
      OnReturn-continue _ _ (claim_ownership s (ptr m) _) _ (claim_ownership-members (ptr m) _)
        (λ _ w' same. moved u (suppress-Moves false u (s.on_member_join (ptr m) w').room) (
          m,
          ap (λ r. Map.find u r.members) (q.member_join (ptr m) w') ∙ ap (Map.find u) same ∙ found,
        ))

  enter-IsMember :
      (now u : ℕ) (status : Status) (w : World G)
      → OnReturn (λ w'. IsMember u w'.room) (enter s now u status w)
  unfolding enter
  enter-IsMember now u status w = elim (Option-cases (Map.find u w.room.members)) [
    | inl e ↦ rw (e, enter) (join-IsMember now u status w e)
    | inr (m, e) ↦
        rw (e, enter)
          (moved u (change-Moves (with_status status) u w.room (λ x. (refl, refl))) (m, e))
  ]

  -- When add_user returns, the user is a member of the room.
  pub add_user-IsMember :
      (now u : ℕ) (method : Join) (w : World G)
      → OnReturn (λ w'. IsMember u w'.room) (add_user s now u method w)
  unfolding add_user
  add_user-IsMember now u method w =
      OnReturn-continue (λ w'. Unit {0}) _ (in_world (join_status method u) w) _ (always _)
        (λ status w' _. enter-IsMember now u status w')
