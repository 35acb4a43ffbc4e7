-- ===== src/Daemon/GlobalCommands.antt =====
-- The commands outside a room (init_global_commands of module/server_daemon/src/commands.cpp), and /nick,
-- the command of a room that asks the server manager. A connection is its user's id.
use social_gaming_platform.Prelude.{
  ℕ, Bool, true, false, Option, none, some, List, [], ◌∷◌, ◌++◌, Text, codes, all, if◌then◌else◌,
}
use social_gaming_platform.Run.{
  Run, Outcome, ok, threw, undefined, pure, gets, modify, ◌>>=◌, ◌>>◌, ChatError, chat_exception,
  game_exception, runtime_error, library_exception, user_not_found, user_nickname_taken,
  room_not_found, room_full, not_allowed_during_game, not_allowed_option, requires_game,
}
use social_gaming_platform.Command.{is_alnum}
use social_gaming_platform.Game.Controller.{Controller}
use social_gaming_platform.Server.{ServerManager, find_user, find_room, find_user_room, create_room}
use social_gaming_platform.Server.Movement.{user_join_room, user_leave_room, user_set_nickname}
use social_gaming_platform.Chat.User.{parse_nickname}

-- RoomId::parse (module/chat/src/RoomId.cpp).
unfoldable pub parse_room_id : Text → Option Text
unfolding is_alnum
parse_room_id id = if all is_alnum id then some id else none

-- ChatException::what (module/chat/src/ChatException.cpp).
unfoldable pub what_message : ChatError → Text
what_message user_not_found = codes "The specified user is not in the game room."
what_message user_nickname_taken = codes "The specified nickname is already in use."
what_message room_full = codes "The room is full."
what_message room_not_found = codes "The specified room code is invalid."
what_message not_allowed_during_game = codes "You can't do that during a game."
what_message not_allowed_option = codes "That option is invalid."
what_message requires_game = codes "That requires a game to do."

unfoldable pub what : ChatError → Option Text → Text
unfolding what_message
what kind none = what_message kind
what kind (some details) = what_message kind ++ (codes " (" ++ (details ++ codes ")"))

module _ {G : Type 0} where
  -- `connection.send_system_message(t)` and `connection.send_error_message(t)`.
  unfoldable pub reply : ℕ → Text → Run (ServerManager G) (Unit {0})
  reply u t = modify (λ s. record s { sent = s.sent ++ (u, t) ∷ [] })

  unfoldable pub reply_error : ℕ → Text → Run (ServerManager G) (Unit {0})
  unfolding reply
  reply_error u t = reply u (codes "Error: " ++ t)

  -- stub_room_only, /ping and /clear.
  unfoldable pub room_only : Text → ℕ → List Text → Run (ServerManager G) (Unit {0})
  unfolding reply
  room_only name u args = reply u (codes "You need to be in a room to use /" ++ name)

  unfoldable pub ping_command : ℕ → List Text → Run (ServerManager G) (Unit {0})
  unfolding reply
  ping_command u args = reply u (codes "Pong.")

  unfoldable pub clear_command : ℕ → List Text → Run (ServerManager G) (Unit {0})
  unfolding reply
  clear_command u args = reply u (codes "/clear")

  -- A shared pointer that is followed.
  abbrev pub pointee : Option ℕ → Run (ServerManager G) ℕ
  pointee none = λ s. undefined
  pointee (some a) = pure a

  -- `if (manager.find_user_room(connection.id())) { ... return; }`.
  abbrev pub unless_in_room :
      ℕ → Text → Option ℕ → Run (ServerManager G) (Unit {0}) → Run (ServerManager G) (Unit {0})
  unless_in_room u t none rest = rest
  unless_in_room u t (some h) rest = reply_error u t

  abbrev pub room_id : ℕ → ServerManager G → Text
  room_id h s = (s.room_at h).id

-- What a command needs from outside: the clock, what a new room's flag happens to be, the codes and the
-- nickname that the generators make.
pub record Supply : Type 0 where
  pub now : ℕ
  pub garbage : Bool
  pub room_codes : List Text
  pub nickname : Text

module _ {G : Type 0} where
  abbrev pub join_created : Supply → ℕ → Option ℕ → Run (ServerManager G) Bool
  join_created supply u none = pure false
  join_created supply u (some h) = do
    id ← gets (room_id h)
    reply u (codes "Your room is: " ++ id)
    v ← gets (find_user u)
    user ← pointee v
    user_join_room supply.now user h supply.nickname
    pure true

  -- /create; false while it is still looking for a code. The user is looked up before the room is made;
  -- the pointer is first followed by the join.
  abbrev pub create_unless : Supply → ℕ → Option ℕ → Run (ServerManager G) Bool
  create_unless supply u (some h) = do
    reply_error u (codes "You need to leave your room before you can create another one.")
    pure true
  create_unless supply u none = do
    made ← create_room supply.now supply.garbage supply.room_codes
    join_created supply u made

  unfoldable pub create_command : Supply → ℕ → List Text → Run (ServerManager G) Bool
  unfolding find_user find_user_room create_room user_join_room reply reply_error
  create_command supply u args s = create_unless supply u (find_user_room u s) s

  -- /join.
  abbrev pub report_chat :
      ℕ → Text → Outcome (ServerManager G) (Unit {0}) → Outcome (ServerManager G) (Unit {0})
  report_chat u arg (ok a s) = ok a s
  report_chat u arg (threw (chat_exception kind details) s) =
      reply_error u (codes "[" ++ (arg ++ (codes "] " ++ what kind details))) s
  report_chat u arg (threw (game_exception t) s) = threw (game_exception t) s
  report_chat u arg (threw (runtime_error t) s) = threw (runtime_error t) s
  report_chat u arg (threw (library_exception t) s) = threw (library_exception t) s
  report_chat u arg undefined = undefined

  abbrev pub try_join : Supply → ℕ → ℕ → Run (ServerManager G) (Unit {0})
  try_join supply u h = do
    v ← gets (find_user u)
    user ← pointee v
    user_join_room supply.now user h supply.nickname
    id ← gets (room_id h)
    reply u (codes "You joined '" ++ (id ++ codes "'."))

  abbrev pub join_found : Supply → ℕ → Text → Option ℕ → Run (ServerManager G) (Unit {0})
  join_found supply u arg none =
      reply_error u (codes "[" ++ (arg ++ codes "] The room does not exist."))
  join_found supply u arg (some h) = λ s. report_chat u arg (try_join supply u h s)

  abbrev pub join_id : Supply → ℕ → Text → Option Text → Run (ServerManager G) (Unit {0})
  join_id supply u arg none = reply_error u (codes "Invalid room code. Example: 'ABCDE'")
  join_id supply u arg (some id) = do h ← gets (find_room id); join_found supply u arg h

  abbrev pub join_args : Supply → ℕ → List Text → Run (ServerManager G) (Unit {0})
  join_args supply u (arg ∷ []) = join_id supply u arg (parse_room_id arg)
  join_args supply u [] = reply_error u (codes "Invalid command usage. Example: /join ABCDE")
  join_args supply u (arg ∷ b ∷ args) =
      reply_error u (codes "Invalid command usage. Example: /join ABCDE")

  unfoldable pub join_command : Supply → ℕ → List Text → Run (ServerManager G) (Unit {0})
  unfolding find_user find_user_room find_room user_join_room reply reply_error parse_room_id what
  join_command supply u args s =
      unless_in_room u (codes "You need to leave your room before you can join another one.")
        (find_user_room u s) (join_args supply u args) s

module _ {G : Type 0} (c : Controller G) where
  -- /leave.
  abbrev pub leave_found : ℕ → Option ℕ → Run (ServerManager G) (Unit {0})
  leave_found u none = reply_error u (codes "You are not in any room.")
  leave_found u (some h) = do
    v ← gets (find_user u)
    user ← pointee v
    found ← gets (find_user_room user)
    room ← pointee found
    user_leave_room c user room
    id ← gets (room_id room)
    reply u (codes "You left '" ++ (id ++ codes "'."))

  unfoldable pub leave_command : ℕ → List Text → Run (ServerManager G) (Unit {0})
  unfolding find_user find_user_room user_leave_room reply reply_error
  leave_command u args s = leave_found u (find_user_room u s) s

-- /whoami; std::to_string is a parameter.
module _ {G : Type 0} (to_string : ℕ → Text) where
  unfoldable pub whoami_command : ℕ → List Text → Run (ServerManager G) (Unit {0})
  unfolding find_user reply
  whoami_command u args = do
    v ← gets (find_user u)
    user ← pointee v
    named ← gets (λ s. s.users user)
    reply user (codes "You are: " ++ named.name)
    reply user (codes "Games:   " ++ to_string named.games)
    reply user (codes "Wins:    " ++ to_string named.wins)

-- /nick, of init_room_commands.
module _ {G : Type 0} where
  abbrev pub report_name :
      ℕ → Outcome (ServerManager G) (Unit {0}) → Outcome (ServerManager G) (Unit {0})
  report_name u (ok a s) = ok a s
  report_name u (threw (chat_exception kind details) s) = reply_error u (what kind details) s
  report_name u (threw (game_exception t) s) = threw (game_exception t) s
  report_name u (threw (runtime_error t) s) = threw (runtime_error t) s
  report_name u (threw (library_exception t) s) = threw (library_exception t) s
  report_name u undefined = undefined

  abbrev pub rename : ℕ → Text → Run (ServerManager G) (Unit {0})
  rename u name = do v ← gets (find_user u); user ← pointee v; user_set_nickname user name

  abbrev pub set_parsed : ℕ → Option Text → Run (ServerManager G) (Unit {0})
  set_parsed u none = reply_error u (codes "Invalid nickname.")
  set_parsed u (some name) = λ s. report_name u (rename u name s)

  unfoldable pub nick_command : ℕ → List Text → Run (ServerManager G) (Unit {0})
  unfolding find_user user_set_nickname parse_nickname reply_error what
  nick_command u (arg ∷ []) = set_parsed u (parse_nickname arg)
  nick_command u [] = reply_error u (codes "Invalid command usage. Example: /nick name_100")
  nick_command u (arg ∷ b ∷ args) =
      reply_error u (codes "Invalid command usage. Example: /nick name_100")
