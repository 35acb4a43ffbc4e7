-- ===== src/Daemon/Tests.antt =====
-- Runs of the theorems about the commands of a room (module/server_daemon/src/commands.cpp).
use social_gaming_platform.Prelude.{refl, [], ◌∷◌, arith, codes}
use social_gaming_platform.Run.Keeps.{HoldsOr}
use social_gaming_platform.Game.Simon.{simon_game}
use social_gaming_platform.Game.Simon.Play.{simon_game-QuitsCleanly}
use social_gaming_platform.Game.Simon.Confined.{simon_game-IsConfined}
use social_gaming_platform.Game.Simon.Tests.{round, parlor-Good, parlor_world, same}
use social_gaming_platform.Server.{room_listeners}
use social_gaming_platform.Server.Upkeep.{room_listeners-IsQuiet}
use social_gaming_platform.Chat.Member.{ptr}
use social_gaming_platform.Chat.Room.Good.{Good}
use social_gaming_platform.Chat.Room.Tests.{
  listeners, idle_game, alice, hall, world_of, alice-in_hall,
}
use social_gaming_platform.Daemon.RoomCommands.{
  kick_command, option_command, options_command, load_command, end_command, start_command,
}
use social_gaming_platform.Daemon.Permissions.{Refused, owner_commands_lem}
use social_gaming_platform.Daemon.Upkeep.{room_commands-Good}

owner_commands_lem_example :
    Refused 2 (world_of hall) (kick_command listeners idle_game 2 [] (world_of hall))
    × Refused 2 (world_of hall) (option_command idle_game 2 [] (world_of hall))
    × Refused 2 (world_of hall) (options_command idle_game 2 [] (world_of hall))
    × Refused 2 (world_of hall) (load_command idle_game tt 2 [] (world_of hall))
    × Refused 2 (world_of hall) (end_command idle_game 2 [] (world_of hall))
    × Refused 2 (world_of hall) (start_command idle_game 2 [] (world_of hall))
owner_commands_lem_example =
    owner_commands_lem 2 (ptr alice) (omega arith) listeners idle_game tt (world_of hall) refl []

room_commands-Good_example :
    HoldsOr
      (Unit {0})
      (λ w'. Good w'.room)
      (kick_command room_listeners (simon_game same) 1 (codes "user" ∷ []) parlor_world)
    × HoldsOr
        (Unit {0})
        (λ w'. Good w'.room)
        (option_command (simon_game same) 1 (codes "user" ∷ []) parlor_world)
    × HoldsOr
        (Unit {0})
        (λ w'. Good w'.room)
        (options_command (simon_game same) 1 (codes "user" ∷ []) parlor_world)
    × HoldsOr
        (Unit {0})
        (λ w'. Good w'.room)
        (load_command (simon_game same) round 1 (codes "user" ∷ []) parlor_world)
    × HoldsOr
        (Unit {0})
        (λ w'. Good w'.room)
        (end_command (simon_game same) 1 (codes "user" ∷ []) parlor_world)
    × HoldsOr
        (Unit {0})
        (λ w'. Good w'.room)
        (start_command (simon_game same) 1 (codes "user" ∷ []) parlor_world)
room_commands-Good_example =
    room_commands-Good (Unit {0}) room_listeners room_listeners-IsQuiet (simon_game same)
      (simon_game-IsConfined same) (simon_game-QuitsCleanly same) round 1 alice (codes "user" ∷ [])
      parlor_world alice-in_hall refl parlor-Good
