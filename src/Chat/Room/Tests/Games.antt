-- ===== src/Chat/Room/Tests/Games.antt =====
-- Runs of the theorems about a room with a game (module/chat/src/Room.cpp).
use social_gaming_platform.Prelude.{◌≡◌, refl, true, List, [], ◌∷◌, Text, codes}
use social_gaming_platform.Run.{pure}
use social_gaming_platform.Chat.Member.Map
use social_gaming_platform.Command.{Command}
use social_gaming_platform.Chat.Room.{is_game_active, is_game_loaded}
use social_gaming_platform.Chat.Room.Good.{Good}
use social_gaming_platform.Chat.Room.Games
use social_gaming_platform.Chat.Room.Routing.{route, process_command_lem}
use social_gaming_platform.Chat.Room.Wins.{award, award_all_lem}
use social_gaming_platform.Chat.Room.Play.{started, start_game_lem}
use social_gaming_platform.Chat.Room.Tests.{
  idle_game, alice, hall, hall-Inv, hall-Good, world_of, alice-in_hall,
}

award_all_lem_example :
    Games.award_all hall.cached_players (world_of hall).users 1
    ≡ award (Map.find 1 hall.members) ((world_of hall).users 1)
award_all_lem_example = award_all_lem hall (world_of hall).users 1 hall-Inv

hall-loaded : is_game_loaded hall ≡ true
unfolding is_game_loaded
hall-loaded = refl

start_game_lem_example :
    (Games.start_game idle_game (world_of hall) ≡ idle_game.start (started (world_of hall)))
    × Good (started (world_of hall)).room
    × ((started (world_of hall)).room.players_disqualified ≡ 0)
    × (is_game_active (started (world_of hall)).room ≡ true)
start_game_lem_example = start_game_lem idle_game (world_of hall) hall-loaded hall-Good

-- A room with one command, which does nothing.
abbrev help_only : List (Text × Games.Executor (Unit {0}))
help_only = (codes "help", λ u args. pure tt) ∷ []

abbrev help : Command
help = record { name = codes "help"; arguments = []; raw_arguments = [] }

process_command_lem_example :
    Games.process_command idle_game help_only 1 help (world_of hall)
    ≡ route idle_game help_only alice help
        (Games.find_command (codes "help") help_only)
        (world_of hall)
process_command_lem_example =
    process_command_lem idle_game help_only 1 alice help (world_of hall) alice-in_hall
