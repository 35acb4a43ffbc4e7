-- ===== src/Chat/Room/SpectatorLimit.antt =====
-- Room::set_spectator_limit (module/chat/src/Room.cpp), which removes users.
use social_gaming_platform.Prelude.{
  ℕ, Bool, true, not, ◌&&◌, List, [], ◌∷◌, leb, ◌==◌, if◌then◌else◌, length, take, filter,
}
use social_gaming_platform.Run.{Run, ok, undefined, pure, ◌>>◌}
use social_gaming_platform.Chat.Member.{Member, is_player, is_waitlisted, joined_before}
use social_gaming_platform.Chat.Room.{World, spectator_count}
use social_gaming_platform.Chat.Room.Waitlist.{overflow}
use social_gaming_platform.Chat.Room.Membership.{Signals, remove_user}
use social_gaming_platform.Game.Controller.{Controller}

-- The comparison that is given to std::sort.
unfoldable pub goes_first : Member → Member → Bool
unfolding is_waitlisted joined_before
goes_first a b = if is_waitlisted a && not (is_waitlisted b) then true else joined_before a b

unfoldable pub insert_member : Member → List Member → List Member
insert_member m [] = m ∷ []
insert_member m (x ∷ ms) =
    let rest = insert_member m ms in if goes_first m x then m ∷ x ∷ ms else x ∷ rest

-- std::sort: on members with different join times there is one sorted order.
unfoldable pub sort_members : List Member → List Member
unfolding insert_member
sort_members [] = []
sort_members (m ∷ ms) = insert_member m (sort_members ms)

module _ {G : Type 0} (s : Signals G) (c : Controller G) where
  unfoldable pub remove_each : List Member → Run (World G) (Unit {0})
  remove_each [] = pure tt
  remove_each (m ∷ ms) = do remove_user s c m.user; remove_each ms

  -- The trimming of the vector to its first `k` elements, and the removals; `begin() + k` past the end
  -- is undefined.
  unfoldable pub remove_first : ℕ → List Member → Run (World G) (Unit {0})
  unfolding remove_each
  remove_first k ms w = if leb k (length ms) then remove_each (take k ms) w else undefined

  -- The members that are collected are players, and the new limit is not stored.
  unfoldable pub set_spectator_limit : ℕ → Run (World G) (Unit {0})
  unfolding is_player sort_members
  set_spectator_limit limit w =
      let k = overflow (spectator_count w.room) limit in
      if k == 0 then ok tt w else remove_first k (sort_members (filter is_player w.room.members)) w
