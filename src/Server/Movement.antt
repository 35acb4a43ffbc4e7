-- ===== src/Server/Movement.antt =====
-- How users join and leave rooms and rename themselves (ServerManager, module/server/src/ServerManager.cpp).
use social_gaming_platform.Prelude.{
  ℕ, Bool, true, false, Option, none, some, List, [], ◌∷◌, ◌++◌, Text, codes, ◌==◌, if◌then◌else◌,
}
use social_gaming_platform.Run.{
  Run, ok, undefined, pure, throw, gets, modify, ◌>>=◌, ◌>>◌, chat_exception, user_nickname_taken,
  not_allowed_during_game,
}
use social_gaming_platform.Std.PtrSet.{MemberPtr}
use social_gaming_platform.Chat.User.{set_nickname, clear_nickname}
use social_gaming_platform.Game.Controller.{Controller}
use social_gaming_platform.Chat.Room.{
  World, is_game_active, find_player, find_user_named, broadcast_message,
}
use social_gaming_platform.Chat.Room.Membership.{as_player_waiting, add_user, remove_user}
use social_gaming_platform.Server.Registry.{emplace, erase_entry}
use social_gaming_platform.Server.{
  ServerManager, room_listeners, world, on, ignore_chat, find_user, find_user_room, destroy_room,
  change_user, send_system_message,
}

abbrev pub is_empty : List MemberPtr → Bool
is_empty [] = true
is_empty (p ∷ ps) = false

module _ {G : Type 0} where
  -- The last paragraph of user_leave_room.
  abbrev pub destroy_empty : ℕ → Run (ServerManager G) (Unit {0})
  destroy_empty h s = (if is_empty (s.room_at h).cached_players then destroy_room h else pure tt) s

module _ {G : Type 0} (c : Controller G) where
  -- `room->remove_user(room->find_player(user))`: for one who is no active player it follows a null pointer.
  abbrev pub remove_found : Option MemberPtr → Run (World G) (Unit {0})
  remove_found none w = undefined
  remove_found (some p) w = remove_user room_listeners c p.id w

  abbrev pub remove_player : ℕ → Run (World G) (Unit {0})
  remove_player u w = remove_found (find_player u w.room) w

  unfoldable pub user_leave_room : ℕ → ℕ → Run (ServerManager G) (Unit {0})
  unfolding erase_entry find_player remove_user destroy_room room_listeners
  user_leave_room u h = do
    modify (λ s. record s { userid_to_room = erase_entry ◌==◌ u s.userid_to_room })
    λ s. ignore_chat (on h (remove_player u) s)
    destroy_empty h

  -- remove_user. The user's own entry stays.
  abbrev pub leave_known : ℕ → Option ℕ → Option ℕ → Run (ServerManager G) (Unit {0})
  leave_known u none room = pure tt
  leave_known u (some v) none = pure tt
  leave_known u (some v) (some h) = user_leave_room v h

  unfoldable pub remove_user_object : ℕ → Run (ServerManager G) (Unit {0})
  unfolding find_user find_user_room user_leave_room
  remove_user_object u s = leave_known u (find_user u s) (find_user_room u s) s

module _ {G : Type 0} where
  -- user_join_room. `generated` is the nickname that the generator makes.
  abbrev pub free_name : ℕ → Option MemberPtr → Run (ServerManager G) (Unit {0})
  free_name u none = pure tt
  free_name u (some p) = do
    send_system_message u
        (codes "Your nickname is already used by somebody in the room you are joining.")
    change_user u clear_nickname

  abbrev pub need_nickname : ℕ → Text → Option Text → Run (ServerManager G) (Unit {0})
  need_nickname u generated (some n) = pure tt
  need_nickname u generated none = do
    send_system_message u (codes "Your new nickname is: " ++ generated)
    change_user u (set_nickname generated)

  abbrev pub enter_room : ℕ → ℕ → ℕ → Text → Run (ServerManager G) (Unit {0})
  enter_room now u h generated = do
    taken ← gets (λ s. find_user_named (s.users u).name (world h s))
    free_name u taken
    nickname ← gets (λ s. (s.users u).nickname)
    need_nickname u generated nickname
    on h (add_user room_listeners now u as_player_waiting)
    modify (λ s. record s { userid_to_room = emplace ◌==◌ u h s.userid_to_room })

  abbrev pub join_unless :
      ℕ → Option ℕ → Run (ServerManager G) (Unit {0}) → Run (ServerManager G) (Unit {0})
  join_unless u none rest = rest
  join_unless u (some h) rest =
      send_system_message u
        (codes "Error: You must leave your current room before joining another one.")

  unfoldable pub user_join_room : ℕ → ℕ → ℕ → Text → Run (ServerManager G) (Unit {0})
  unfolding find_user_room find_user_named clear_nickname set_nickname add_user emplace
      room_listeners
  user_join_room now u h generated s =
      join_unless u (find_user_room u s) (enter_room now u h generated) s

  -- user_set_nickname.
  abbrev pub check_name : Option MemberPtr → Run (ServerManager G) (Unit {0})
  check_name none = pure tt
  check_name (some p) = throw (chat_exception user_nickname_taken none)

  abbrev pub check_idle : Bool → Option MemberPtr → Run (ServerManager G) (Unit {0})
  check_idle active none = pure tt
  check_idle active (some p) =
      if active then throw (chat_exception not_allowed_during_game none) else pure tt

  abbrev pub announce : ℕ → Text → Option ℕ → Run (ServerManager G) (Unit {0})
  announce u name none = pure tt
  announce u name (some h) = do
    taken ← gets (λ s. find_user_named name (world h s))
    check_name taken
    active ← gets (λ s. is_game_active (s.room_at h))
    found ← gets (λ s. find_player u (s.room_at h))
    check_idle active found
    on h (λ w. ok tt (
        broadcast_message
          (codes "[~] " ++ ((w.users u).name ++ (codes " is now known as " ++ (name ++ codes "."))))
          w))

  unfoldable pub user_set_nickname : ℕ → Text → Run (ServerManager G) (Unit {0})
  unfolding find_user_room find_user_named is_game_active find_player broadcast_message set_nickname
  user_set_nickname u name = do
    room ← gets (find_user_room u)
    announce u name room
    change_user u (set_nickname name)
