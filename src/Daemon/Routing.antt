-- ===== src/Daemon/Routing.antt =====
-- The routing of what clients send (module/server_daemon/src/chatserver.cpp).
use social_gaming_platform.Prelude.{
  ℕ, Bool, true, false, Option, none, some, List, Text, codes, if◌then◌else◌,
}
use social_gaming_platform.Run.{
  Run, Outcome, ok, threw, undefined, pure, ◌>>=◌, chat_exception, game_exception, runtime_error,
  library_exception,
}
use social_gaming_platform.Command.{
  Command, parse, is_command, Parsed, parsed, nullopt, out_of_range,
}
use social_gaming_platform.Game.Controller.{Controller}
use social_gaming_platform.Chat.Room.Games
use social_gaming_platform.Chat.Room.Games.{Executor, find_command}
use social_gaming_platform.Server.{ServerManager, on, find_user_room}
use social_gaming_platform.Daemon.GlobalCommands.{reply, reply_error}

-- The routing. `global` is the map of the commands outside a room, and `commands` the room's.
module _ {G : Type 0} (c : Controller G)
    (global : List (Text × (ℕ → List Text → Run (ServerManager G) (Unit {0}))))
    (commands : List (Text × Executor G)) where
  abbrev pub execute :
      ℕ
      → Command
      → Option (ℕ → List Text → Run (ServerManager G) (Unit {0}))
      → Run (ServerManager G) (Unit {0})
  execute u d none = reply_error u (codes "Unknown command. Use /help to see a list of commands.")
  execute u d (some executor) = executor u d.arguments

  abbrev pub unless_taken : ℕ → Command → Bool → Run (ServerManager G) (Unit {0})
  unless_taken u d true = pure tt
  unless_taken u d false = execute u d (find_command d.name global)

  abbrev pub room_first : ℕ → Command → Option ℕ → Run (ServerManager G) (Unit {0})
  room_first u d none = execute u d (find_command d.name global)
  room_first u d (some h) = do
    taken ← on h (Games.process_command c commands u d)
    unless_taken u d taken

  -- process_command.
  unfoldable pub process_command : ℕ → Command → Run (ServerManager G) (Unit {0})
  unfolding find_user_room find_command Games.process_command reply_error
  process_command u d s = room_first u d (find_user_room u s) s

  -- process_message.
  abbrev pub to_room : ℕ → Text → Option ℕ → Run (ServerManager G) (Unit {0})
  to_room u t none =
      reply u (codes "You need to be in a room to send a message! /create or /join a room.")
  to_room u t (some h) = do sent ← on h (Games.process_message c u t); pure tt

  unfoldable pub process_message : ℕ → Text → Run (ServerManager G) (Unit {0})
  unfolding find_user_room Games.process_message reply
  process_message u t s = to_room u t (find_user_room u s) s

  -- `catch (std::runtime_error& ex)`, which ChatException and GameException are not.
  abbrev pub catch_runtime :
      ℕ → Outcome (ServerManager G) (Unit {0}) → Outcome (ServerManager G) (Unit {0})
  catch_runtime u (ok a s) = ok a s
  catch_runtime u (threw (chat_exception kind details) s) = threw (chat_exception kind details) s
  catch_runtime u (threw (game_exception t) s) = threw (game_exception t) s
  catch_runtime u (threw (runtime_error t) s) =
      reply_error u (codes "An internal error occurred.") s
  catch_runtime u (threw (library_exception t) s) = threw (library_exception t) s
  catch_runtime u undefined = undefined

  -- process_packet, on the packet's text.
  abbrev pub run_parsed : ℕ → Parsed → Run (ServerManager G) (Unit {0})
  run_parsed u (parsed d) = λ s. catch_runtime u (process_command u d s)
  run_parsed u nullopt =
      reply_error u (codes "Invalid command. Use /help to see a list of commands.")
  run_parsed u out_of_range = λ s. threw (library_exception (codes "std::out_of_range")) s

  unfoldable pub process_packet : ℕ → Text → Run (ServerManager G) (Unit {0})
  unfolding is_command parse process_message process_command reply_error
  process_packet u t = if is_command t then run_parsed u (parse t) else process_message u t
