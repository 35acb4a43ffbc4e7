-- ===== src/Server.antt =====
-- ServerManager (module/server/src/ServerManager.cpp): the maps of users and rooms.
pub mod Registry
pub mod Movement
pub mod Upkeep
pub mod Leaving
pub mod Tests
use social_gaming_platform.Prelude.{
  ℕ, suc, ◌+◌, Bool, true, false, Option, none, some, List, [], ◌∷◌, ◌++◌, map, Text, codes,
  text_eq, ◌==◌, if◌then◌else◌,
}
use social_gaming_platform.Run.{
  Run, Outcome, ok, threw, undefined, pure, throw, modify, ◌>>=◌, ◌>>◌, chat_exception,
  game_exception, runtime_error, library_exception, room_not_found,
}
use social_gaming_platform.Chat.User.{User}
use social_gaming_platform.Chat.Room.{Room, World, make_room, broadcast_message}
use social_gaming_platform.Chat.Room.Membership.{Signals}
use social_gaming_platform.Server.Registry.{look_up, emplace, erase_entry}

-- A shared pointer to a room is the number under which the room was made, so that a room that the map no
-- longer has is still there for those who hold it. A user's entry in `_userid_to_user` is the id alone.
pub record ServerManager (G : Type 0) : Type 0 where
  pub userid_to_user : List (ℕ × ℕ)
  pub userid_to_room : List (ℕ × ℕ)
  pub roomid_to_room : List (Text × ℕ)
  pub rooms_made : ℕ
  pub room_at : ℕ → Room G
  pub users : ℕ → User
  pub counter : ℕ
  pub sent : List (ℕ × Text)
  pub freed_reads : Bool

-- The listeners that create_room attaches.
unfoldable pub room_listeners : {G : Type 0} → Signals G
unfolding broadcast_message
room_listeners = record {
  on_owner_change = λ p w.
      broadcast_message (codes "[!] " ++ ((w.users p.id).name ++ codes " is the new owner.")) w;
  on_member_join = λ p w. broadcast_message (codes "[+] " ++ (w.users p.id).name) w;
  on_member_leave = λ p w. broadcast_message (codes "[-] " ++ (w.users p.id).name) w;
}

module _ {G : Type 0} where
  abbrev pub world : ℕ → ServerManager G → World G
  world h s = record {
    room = s.room_at h;
    users = s.users;
    counter = s.counter;
    sent = s.sent;
    freed_reads = s.freed_reads;
  }

  abbrev pub put_room : ℕ → Room G → (ℕ → Room G) → ℕ → Room G
  put_room h r f k = if k == h then r else f k

  abbrev pub with_world : ℕ → World G → ServerManager G → ServerManager G
  with_world h w s = record s {
    room_at = put_room h w.room s.room_at;
    users = w.users;
    counter = w.counter;
    sent = w.sent;
  }

  abbrev pub back :
      {A : Type 0} → ℕ → ServerManager G → Outcome (World G) A → Outcome (ServerManager G) A
  back h s (ok a w) = ok a (with_world h w s)
  back h s (threw e w) = threw e (with_world h w s)
  back h s undefined = undefined

  -- A method of the room at `h`.
  abbrev pub on : {A : Type 0} → ℕ → Run (World G) A → Run (ServerManager G) A
  on h m s = back h s (m (world h s))

  -- `catch (ChatException& ex) {}`.
  abbrev pub ignore_chat :
      Outcome (ServerManager G) (Unit {0}) → Outcome (ServerManager G) (Unit {0})
  ignore_chat (ok a s) = ok a s
  ignore_chat (threw (chat_exception k d) s) = ok tt s
  ignore_chat (threw (game_exception t) s) = threw (game_exception t) s
  ignore_chat (threw (runtime_error t) s) = threw (runtime_error t) s
  ignore_chat (threw (library_exception t) s) = threw (library_exception t) s
  ignore_chat undefined = undefined

  -- find_user, find_room, find_user_room and rooms.
  unfoldable pub find_user : ℕ → ServerManager G → Option ℕ
  unfolding look_up
  find_user u s = look_up ◌==◌ u s.userid_to_user

  unfoldable pub find_room : Text → ServerManager G → Option ℕ
  unfolding look_up
  find_room id s = look_up text_eq id s.roomid_to_room

  unfoldable pub find_user_room : ℕ → ServerManager G → Option ℕ
  unfolding look_up
  find_user_room u s = look_up ◌==◌ u s.userid_to_room

  unfoldable pub rooms : ServerManager G → List ℕ
  rooms s = map (λ e. e.1) s.roomid_to_room

  -- add_user.
  unfoldable pub add_user_object : ℕ → ServerManager G → ServerManager G
  unfolding emplace
  add_user_object u s = record s { userid_to_user = emplace ◌==◌ u u s.userid_to_user }

-- The loop of create_room over the codes that RoomId::generate makes: none while all of them are taken.
unfoldable pub free_code : List Text → List (Text × ℕ) → Option Text
unfolding look_up
free_code [] m = none
free_code (t ∷ ts) m =
    let rest = free_code ts m in elim (look_up text_eq t m) [ none ↦ some t | some h ↦ rest ]

module _ {G : Type 0} where
  -- create_room from the code on. `now` is the clock's reading and `garbage` what the constructor of Room
  -- leaves as it was.
  unfoldable pub create_with : ℕ → Bool → Text → Run (ServerManager G) ℕ
  unfolding emplace make_room
  create_with now garbage id s = ok s.rooms_made (record s {
    roomid_to_room = emplace text_eq id s.rooms_made s.roomid_to_room;
    rooms_made = suc s.rooms_made;
    room_at = put_room s.rooms_made (make_room id now garbage) s.room_at;
  })

  -- create_room; none while it is still looking for a code.
  abbrev pub with_code : ℕ → Bool → Option Text → Run (ServerManager G) (Option ℕ)
  with_code now garbage none = pure none
  with_code now garbage (some id) = do h ← create_with now garbage id; pure (some h)

  unfoldable pub create_room : ℕ → Bool → List Text → Run (ServerManager G) (Option ℕ)
  unfolding free_code create_with
  create_room now garbage generated s =
      with_code now garbage (free_code generated s.roomid_to_room) s

  -- destroy_room. The set of users that it runs over is always empty.
  abbrev pub erase_found : Text → Option ℕ → Run (ServerManager G) (Unit {0})
  erase_found id none = throw (chat_exception room_not_found none)
  erase_found id (some h) =
      modify (λ s. record s { roomid_to_room = erase_entry text_eq id s.roomid_to_room })

  unfoldable pub destroy_room : ℕ → Run (ServerManager G) (Unit {0})
  unfolding find_room erase_entry
  destroy_room h s = erase_found (s.room_at h).id (find_room (s.room_at h).id s) s

  -- `user->...` on the shared user.
  abbrev pub change_user : ℕ → (User → User) → Run (ServerManager G) (Unit {0})
  change_user u f =
      modify (λ s. record s { users = λ v. if v == u then f (s.users v) else s.users v })

  abbrev pub send_system_message : ℕ → Text → Run (ServerManager G) (Unit {0})
  send_system_message u t = modify (λ s. record s { sent = s.sent ++ (u, t) ∷ [] })
