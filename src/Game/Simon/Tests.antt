-- ===== src/Game/Simon/Tests.antt =====
-- Runs of the theorems about Simon (module/server_daemon/src/EXAMPLE_Simon.cpp).
use social_gaming_platform.Prelude.{
  ◌≡◌, refl, true, false, some, none, [], ◌∷◌, Text, codes, ◌==◌, if◌then◌else◌,
}
use social_gaming_platform.Run.{ok}
use social_gaming_platform.Chat.User.{make_user}
use social_gaming_platform.Chat.Member.Map
use social_gaming_platform.Chat.Room.{Room, World, find_player, find_by_id, is_game_loaded}
use social_gaming_platform.Chat.Room.Moves.{Moves}
use social_gaming_platform.Chat.Room.Invariant.{Inv}
use social_gaming_platform.Chat.Room.Good.{Good}
use social_gaming_platform.Chat.Room.Tests.{alice, hall, hall-Inv}
use social_gaming_platform.Run.Keeps.{HoldsOr}
use social_gaming_platform.Chat.Room.Games
use social_gaming_platform.Chat.Room.Play.{game_methods-Good}
use social_gaming_platform.Game.Simon.Confined.{simon_game-IsConfined}
use social_gaming_platform.Game.Simon.{Simon, on_player_quit, simon_game}
use social_gaming_platform.Game.Simon.Play.{after_quit, on_player_quit_lem}

-- A round in which member 2, who does not play, is waited for.
abbrev pub round : Simon
round = record { simon = 1; simon_message = codes "hello"; incomplete = 2 ∷ [] }

-- The hall, with the game of Simon.
abbrev pub parlor : Room Simon
parlor = record {
  owner = hall.owner;
  created_at = hall.created_at;
  id = hall.id;
  player_limit = hall.player_limit;
  spectator_limit = hall.spectator_limit;
  players_disqualified = hall.players_disqualified;
  members = hall.members;
  cached_users = hall.cached_users;
  cached_players = hall.cached_players;
  cached_spectators = hall.cached_spectators;
  cached_users_as_spectators = hall.cached_users_as_spectators;
  game = some round;
  game_started = false;
}

parlor-Inv : Inv parlor
parlor-Inv = record {
  distinct = hall-Inv.distinct;
  bounded = hall-Inv.bounded;
  users_ok = hall-Inv.users_ok;
  users_as_spectators_ok = hall-Inv.users_as_spectators_ok;
  players_ok = hall-Inv.players_ok;
  spectators_ok = hall-Inv.spectators_ok;
  disqualified_ok = hall-Inv.disqualified_ok;
}

pub parlor-Good : Good parlor
unfolding Map.find
parlor-Good = record { inv = parlor-Inv; owned = (alice, refl, refl); playable = λ h. cc }

abbrev pub parlor_world : World Simon
parlor_world = record {
  room = parlor;
  users = λ u. make_user (codes "user");
  counter = 9;
  sent = [];
  freed_reads = true;
}

abbrev pub same : Text → Text
same t = t

on_player_quit_lem_example :
    (w' : World Simon) × (on_player_quit 1 parlor_world ≡ ok tt w')
    × (w'.room ≡ after_quit (1 == round.simon) parlor)
    × (w'.room.players_disqualified ≡ (if 1 == round.simon then 0 else parlor.players_disqualified))
    × Moves parlor w'.room
on_player_quit_lem_example = on_player_quit_lem 1 round parlor_world refl parlor-Inv

bob-idle : find_player 2 parlor ≡ none
unfolding find_player find_by_id
bob-idle = refl

parlor-loaded : is_game_loaded parlor ≡ true
unfolding is_game_loaded
parlor-loaded = refl

game_methods-Good_example :
    HoldsOr (Unit {0}) (λ w'. Good w'.room) (Games.start_game (simon_game same) parlor_world)
    × HoldsOr (Unit {0}) (λ w'. Good w'.room) (Games.update_game (simon_game same) parlor_world)
    × HoldsOr (Unit {0}) (λ w'. Good w'.room) (Games.load_game (simon_game same) round parlor_world)
    × HoldsOr (Unit {0}) (λ w'. Good w'.room) (Games.end_game parlor_world)
    × HoldsOr
        (Unit {0})
        (λ w'. Good w'.room)
        (Games.game_option (simon_game same) (codes "simon") (codes "user") parlor_world)
    × HoldsOr
        (Unit {0})
        (λ w'. Good w'.room)
        (Games.process_message (simon_game same) 3 (codes "hi") parlor_world)
game_methods-Good_example =
    game_methods-Good (Unit {0}) (simon_game same) (simon_game-IsConfined same) parlor_world round 3
      (codes "simon") (codes "user") (codes "hi") parlor-Good
