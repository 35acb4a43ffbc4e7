-- ===== src/Server/Leaving.antt =====
-- How users leave rooms (ServerManager::user_leave_room, module/server/src/ServerManager.cpp).
use social_gaming_platform.Prelude.{
  ℕ, true, Option, none, some, List, [], ◌∷◌, Text, ◌==◌, ==_iff, if◌then◌else◌, ◌≡◌, refl, ap, sym,
  ◌∙◌, inl, inr, Bool-cases,
}
use mathlib.Core.Path.{subst}
use social_gaming_platform.Run.{
  Outcome, ok, threw, undefined, continue, chat_exception, room_not_found,
}
use social_gaming_platform.Std.PtrSet.{MemberPtr}
use social_gaming_platform.Chat.Member.Map
use social_gaming_platform.Game.Controller.{Controller, QuitsCleanly}
use social_gaming_platform.Chat.Room.{find_by_id, find_player}
use social_gaming_platform.Chat.Room.Leaves.{remove_user-Good}
use social_gaming_platform.Server.{
  ServerManager, room_listeners, world, with_world, back, ignore_chat, find_room, find_user_room,
  erase_found, destroy_room,
}
use social_gaming_platform.Server.Movement.{destroy_empty, is_empty, remove_found, user_leave_room}
use social_gaming_platform.Server.Registry.{erase_entry, look_up-erase_entry, erase_entry-Once}
use social_gaming_platform.Server.Upkeep.{WellKept, room_listeners-IsQuiet, with_world-WellKept}

abbrev id_of : Option MemberPtr → ℕ
id_of none = 0
id_of (some p) = p.id

found_id : (u : ℕ) (ps : List MemberPtr) (p : MemberPtr) → find_by_id u ps ≡ some p → p.id ≡ u
unfolding find_by_id
found_id u [] p h = cc h
found_id u (q ∷ ps) p h = elim (Bool-cases (q.id == u)) [
  | inl e ↦
      ap id_of (sym h ∙ ap (λ b. if b then some q else find_by_id u ps) e) ∙ (==_iff q.id u).0 e
  | inr e ↦ found_id u ps p (ap (λ b. if b then some q else find_by_id u ps) (sym e) ∙ h)
]

module _ {G : Type 0} where
  -- The user has no room, and is no member of the room at `h`.
  abbrev pub HasLeft : ℕ → ℕ → ServerManager G → Type 0
  HasLeft u h s =
      WellKept s × (find_user_room u s ≡ none) × (Map.find u (s.room_at h).members ≡ none)

  -- The user has left, though the room may turn out not to be listed any more.
  abbrev pub Left : ℕ → ℕ → Outcome (ServerManager G) (Unit {0}) → Type 0
  Left u h (ok a s) = HasLeft u h s
  Left u h (threw e s) = (e ≡ chat_exception room_not_found none) × HasLeft u h s
  Left u h undefined = ⊥

  -- By the active player that was found.
  abbrev pub LeftAs : ℕ → ℕ → Option MemberPtr → Outcome (ServerManager G) (Unit {0}) → Type 0
  LeftAs u h none o = o ≡ undefined
  LeftAs u h (some p) o = Left u h o

  erase_found-Left :
      (u h : ℕ) (id : Text) (o : Option ℕ) (s : ServerManager G)
      → HasLeft u h s
      → Left u h (erase_found id o s)
  unfolding find_user_room
  erase_found-Left u h id none s l = (refl, l)
  erase_found-Left u h id (some k) s l =
      (record { rooms_good = l.0.rooms_good; users_once = l.0.users_once }, l.1, l.2)

  destroy_empty-Left :
      (u h : ℕ) (s : ServerManager G) → HasLeft u h s → Left u h (destroy_empty h s)
  unfolding destroy_room
  destroy_empty-Left u h s l = elim (Bool-cases (is_empty (s.room_at h).cached_players)) [
    | inl e ↦ rw e (erase_found-Left u h (s.room_at h).id (find_room (s.room_at h).id s) s l)
    | inr e ↦ rw e l
  ]

  module _ (c : Controller G) (quits : QuitsCleanly c) where
    -- From the removal in the room on.
    removed-Left :
        (u h : ℕ) (o : Option MemberPtr) (s : ServerManager G)
        → find_player u (s.room_at h) ≡ o
        → WellKept s
        → s.freed_reads ≡ true
        → find_user_room u s ≡ none
        → LeftAs u h o (
            continue (ignore_chat (back h s (remove_found c o (world h s)))) (λ x. destroy_empty h))
    unfolding find_player find_user_room
    removed-Left u h none s e k reads f = refl
    removed-Left u h (some p) s e k reads f =
        let (w', done, good, gone) =
          remove_user-Good room_listeners room_listeners-IsQuiet c quits p.id (world h s) reads
            (k.rooms_good h) in
        let absent : Map.find u w'.room.members ≡ none =
          ap (λ v. Map.find v w'.room.members) (sym (found_id u (s.room_at h).cached_players p e))
          ∙ gone in
        let s' : ServerManager G = with_world h w' s in
        let here : (h == h) ≡ true = (==_iff h h).1 refl in
        let left : HasLeft u h s' = (
          with_world-WellKept h w' s good k,
          f,
          ap (λ b. Map.find u (if b then w'.room else s.room_at h).members) here ∙ absent,
        ) in
        subst (λ o. Left u h (continue (ignore_chat (back h s o)) (λ x. destroy_empty h)))
          (sym done) (destroy_empty-Left u h s' left)

    pub user_leave_room_lem :
        (u h : ℕ) (s : ServerManager G)
        → WellKept s
        → s.freed_reads ≡ true
        → LeftAs u h (find_player u (s.room_at h)) (user_leave_room c u h s)
    unfolding user_leave_room find_user_room
    user_leave_room_lem u h s k reads =
        let s' : ServerManager G = record s {
          userid_to_room = erase_entry ◌==◌ u s.userid_to_room;
        } in
        let k' : WellKept s' = record {
          rooms_good = k.rooms_good;
          users_once = erase_entry-Once u s.userid_to_room k.users_once;
        } in
        removed-Left u h (find_player u (s.room_at h)) s' refl k' reads
          (look_up-erase_entry u s.userid_to_room k.users_once)
