-- ===== src/Daemon/RoomCommands.antt =====
-- The commands of a room (init_room_commands of module/server_daemon/src/commands.cpp): /members, /kick,
-- /option, /options, /load, /end, /start and /room.
use social_gaming_platform.Prelude.{
  ℕ, Bool, true, false, not, Option, none, some, List, [], ◌∷◌, ◌++◌, Text, codes, ◌==◌,
  if◌then◌else◌, text_eq,
}
use social_gaming_platform.Run.{
  Run, Outcome, ok, threw, undefined, pure, gets, modify, ◌>>=◌, ◌>>◌, game_exception,
  chat_exception, runtime_error, library_exception,
}
use social_gaming_platform.Std.PtrSet.{MemberPtr}
use social_gaming_platform.Chat.User.{User, parse_nickname}
use social_gaming_platform.Chat.Member.{Member, is_disqualified, is_waitlisted, is_spectator}
use social_gaming_platform.Chat.Member.Map
use social_gaming_platform.Game.Controller.{Controller}
use social_gaming_platform.Chat.Room.{
  World, player_count, spectator_count, broadcast_message, send_to, is_game_loaded, find_user_named,
}
use social_gaming_platform.Chat.Room.Membership.{Signals, remove_user}
use social_gaming_platform.Chat.Room.Games

-- `owner && owner == member`, within one room.
abbrev pub owns : Option MemberPtr → MemberPtr → Bool
owns none p = false
owns (some o) p = o.id == p.id

-- What /members says of the entry that a pointer leads to.
unfoldable pub member_line : Option MemberPtr → (ℕ → User) → MemberPtr → Option Member → Text
unfolding is_waitlisted is_spectator
member_line owner users p none = codes " - " ++ (users p.id).name
member_line owner users p (some m) =
    codes " - "
    ++ ((users p.id).name
        ++ (if owns owner p
            then codes " [owner]"
            else if is_disqualified m
            then codes " [spectator|disqualified]"
            else if is_waitlisted m
            then codes " [spectator|waitlisted]"
            else if is_spectator m
            then codes " [spectator]"
            else []))

module _ {G : Type 0} where
  -- `user.send_system_message(t)`; on a connection it is the plain text
  -- (module/server/src/Connection.cpp).
  abbrev pub tell : ℕ → Text → Run (World G) (Unit {0})
  tell u t w = ok tt (send_to u t w)

  -- `user.send_error_message(t)`.
  abbrev pub tell_error : ℕ → Text → Run (World G) (Unit {0})
  tell_error u t w = ok tt (send_to u (codes "Error: " ++ t) w)

  -- `if (!test) { user.send_error_message(t); return; }` before the rest of a command.
  abbrev pub require : Bool → ℕ → Text → Run (World G) (Unit {0}) → Run (World G) (Unit {0})
  require true u t rest = rest
  require false u t rest = tell_error u t

  -- `if (user != *room.owner()) { ... return; }`; a room without an owner has a null pointer.
  abbrev pub by_owner :
      Option MemberPtr → ℕ → Text → Run (World G) (Unit {0}) → Run (World G) (Unit {0})
  by_owner none u t rest w = undefined
  by_owner (some o) u t rest w = require (o.id == u) u t rest w

  abbrev pub owner_only : ℕ → Text → Run (World G) (Unit {0}) → Run (World G) (Unit {0})
  owner_only u t rest w = by_owner w.room.owner u t rest w

  abbrev pub needs_game : ℕ → Run (World G) (Unit {0}) → Run (World G) (Unit {0})
  needs_game u rest w =
      require (is_game_loaded w.room) u
        (codes "This room isn't playing a game. Use /load to select a game.") rest w

  unfoldable pub list_members : ℕ → List MemberPtr → World G → World G
  unfolding member_line send_to Map.find
  list_members u [] w = w
  list_members u (p ∷ ps) w =
      list_members u ps
        (send_to u (member_line w.room.owner w.users p (Map.find p.id w.room.members)) w)

  unfoldable pub members_command : ℕ → List Text → Run (World G) (Unit {0})
  members_command u args = do
    tell u (codes "Members:")
    modify (λ w. list_members u w.room.cached_users w)

-- `options` of /options, a line for each.
unfoldable pub list_options : {G : Type 0} → ℕ → List (Text × Text) → World G → World G
unfolding send_to
list_options u [] w = w
list_options u ((key, about) ∷ options) w =
    list_options u options (send_to u (codes "    '" ++ (key ++ (codes "' -- " ++ about))) w)

module _ {G : Type 0} where
  -- What /option says of the answer of the game.
  abbrev pub report : ℕ → Option Text → Run (World G) (Unit {0})
  report u none = pure tt
  report u (some e) = tell_error u e

  abbrev pub say_options : ℕ → List (Text × Text) → Run (World G) (Unit {0})
  say_options u [] = tell u (codes "This game doesn't have any options.")
  say_options u (o ∷ options) = do tell u (codes "Options:"); modify (list_options u (o ∷ options))

  -- `catch (GameException& ex)`.
  abbrev pub catch_game : ℕ → Outcome (World G) (Unit {0}) → Outcome (World G) (Unit {0})
  catch_game u (ok a w) = ok a w
  catch_game u (threw (game_exception what) w) =
      tell_error u (codes "Failed to start the game. " ++ what) w
  catch_game u (threw (chat_exception kind details) w) = threw (chat_exception kind details) w
  catch_game u (threw (runtime_error what) w) = threw (runtime_error what) w
  catch_game u (threw (library_exception what) w) = threw (library_exception what) w
  catch_game u undefined = undefined

module _ {G : Type 0} (s : Signals G) (c : Controller G) where
  -- /kick, once a member has the name.
  unfoldable pub kick : ℕ → Text → Option MemberPtr → Run (World G) (Unit {0})
  kick u name none = tell_error u (codes "User '" ++ (name ++ codes "' is not in the room."))
  kick u name (some p) =
      require (not (p.id == u)) u
        (codes "You cannot kick yourself. Use can /leave to exit the room.")
        (do remove_user s c p.id; tell u (codes "You kicked out " ++ (name ++ codes ".")))

  unfoldable pub kick_named : ℕ → Text → Option Text → Run (World G) (Unit {0})
  kick_named u arg none w = tell_error u (codes "Invalid name '" ++ (arg ++ codes "'.")) w
  kick_named u arg (some name) w = kick u name (find_user_named name w) w

  unfoldable pub kick_command : ℕ → List Text → Run (World G) (Unit {0})
  unfolding parse_nickname
  kick_command u (arg ∷ []) =
      owner_only u (codes "You must be a room owner to kick out a user.")
        (kick_named u arg (parse_nickname arg))
  kick_command u args = tell_error u (codes "Invalid command usage. Example: /kick john")

module _ {G : Type 0} (c : Controller G) where
  unfoldable pub option_command : ℕ → List Text → Run (World G) (Unit {0})
  option_command u (key ∷ value ∷ []) =
      owner_only u (codes "You must be a room owner to change an option.")
        (needs_game u (do result ← Games.game_option c key value; report u result))
  option_command u args =
      tell_error u (codes "Invalid command usage. Example: /option leader john_smith")

  unfoldable pub options_command : ℕ → List Text → Run (World G) (Unit {0})
  options_command u [] =
      owner_only u (codes "You must be a room owner to see the option.")
        (needs_game u (λ w. say_options u (c.list_option_descriptions w) w))
  options_command u (a ∷ args) = tell_error u (codes "Invalid command usage. Example: /options")

  -- The one game that there is to load; `fresh` is the state of a new one.
  unfoldable pub load_command : G → ℕ → List Text → Run (World G) (Unit {0})
  load_command fresh u (game ∷ []) =
      owner_only u (codes "You must be a room owner to load a game.") (
        require (text_eq game (codes "simon")) u (codes "Unknown game.") (do
          Games.load_game c fresh
          tell u (codes "The game was loaded successfully.")
          tell u (codes "Use /options to see the game options.")
          tell u (codes "Use /start to start the game.")))
  load_command fresh u args = tell_error u (codes "Invalid command usage. Example: /load simon")

  unfoldable pub end_command : ℕ → List Text → Run (World G) (Unit {0})
  unfolding broadcast_message
  end_command u [] = owner_only u (codes "You must be a room owner to end a game.") (
      needs_game u (do
        Games.end_game
        modify (λ w. broadcast_message ((w.users u).name ++ codes " ended the game.") w)))
  end_command u (a ∷ args) = tell_error u (codes "Invalid command usage. Example: /end")

  unfoldable pub start_command : ℕ → List Text → Run (World G) (Unit {0})
  start_command u [] = owner_only u (codes "You must be a room owner to start a game.") (
      needs_game u (λ w.
        catch_game u
          ((do Games.start_game c; tell u (codes "Started the game. Good luck, and have fun!")) w)))
  start_command u (a ∷ args) = tell_error u (codes "Invalid command usage. Example: /start")

module _ {G : Type 0} (to_string : ℕ → Text) where
  -- /room; std::to_string is a parameter.
  unfoldable pub room_command : ℕ → List Text → Run (World G) (Unit {0})
  unfolding player_count spectator_count
  room_command u args = do
    room ← gets (λ w. w.room)
    tell u (codes "Room:       " ++ room.id)
    tell u (
        codes "Players:    "
        ++ (to_string (player_count room) ++ (codes " / " ++ to_string room.player_limit)))
    tell u (
        codes "Spectators: "
        ++ (to_string (spectator_count room) ++ (codes " / " ++ to_string room.spectator_limit)))
