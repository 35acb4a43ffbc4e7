-- ===== src/Chat/Room/Good.antt =====
-- A well-formed room: the bookkeeping agrees with the members, and the owner is one of them, and
-- a game that is on is there.
use social_gaming_platform.Prelude.{
  ℕ, ◌≡◌, refl, false, Option, none, some, List, [], ◌∷◌, arith, ◌∙◌,
}
use social_gaming_platform.Std.PtrSet.{MemberPtr}
use social_gaming_platform.Chat.Member.{Member}
use social_gaming_platform.Chat.Member.Map
use social_gaming_platform.Chat.Room.{Room, make_room}
use social_gaming_platform.Chat.Room.Invariant.{Inv, make_room-Inv}
use social_gaming_platform.Chat.Room.Moves.{Moves, Playable}

-- An owner is in the room, under the pointer that the room holds; without an owner the room is empty.
abbrev pub Owned : Option MemberPtr → List Member → Type 0
Owned none ms = ms ≡ []
Owned (some p) ms = (m : Member) × (Map.find p.id ms ≡ some m) × (m.since ≡ p.since)

pub record Good {G : Type 0} (r : Room G) : Type 0 where
  pub inv : Inv r
  pub owned : Owned r.owner r.members
  pub playable : Playable r

pub empty_of_absent : (ms : List Member) → ((u : ℕ) → Map.find u ms ≡ none) → ms ≡ []
unfolding Map.find
empty_of_absent [] h = refl
empty_of_absent (m ∷ ms) h = ground (arith, h m.user)

module _ {G : Type 0} where
  -- A new room is well formed if the flag that the constructor leaves alone happens to be clear.
  pub make_room-Good : (id : List ℕ) (now : ℕ) → Good (make_room {G = G} id now false)
  unfolding make_room
  make_room-Good id now = record {
    inv = make_room-Inv id now false;
    owned = refl;
    playable = λ h. cc;
  }

  pub Moves-Owned :
      (o : Option MemberPtr) {r r' : Room G} → Moves r r' → Owned o r.members → Owned o r'.members
  unfolding Map.find
  Moves-Owned none {r} {r'} mv h = empty_of_absent r'.members (λ u. mv.absent u (rw h refl))
  Moves-Owned (some p) {r} {r'} mv h = let (m', e, s) = mv.present p.id h.0 h.1 in (m', e, s ∙ h.2)

  pub Moves-Good : {r r' : Room G} → Moves r r' → Good r → Good r'
  Moves-Good {r} {r'} mv g = record {
    inv = mv.inv g.inv;
    owned = rw mv.owner (Moves-Owned r.owner mv g.owned);
    playable = mv.playable g.playable;
  }

  -- The owner is no part of the bookkeeping.
  pub owner-Inv : (o : Option MemberPtr) {r : Room G} → Inv r → Inv (record r { owner = o })
  owner-Inv o v = record {
    distinct = v.distinct;
    bounded = v.bounded;
    users_ok = v.users_ok;
    users_as_spectators_ok = v.users_as_spectators_ok;
    players_ok = v.players_ok;
    spectators_ok = v.spectators_ok;
    disqualified_ok = v.disqualified_ok;
  }
