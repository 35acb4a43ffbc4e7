-- ===== src/Chat/Room/Tests.antt =====
-- Rooms to try the methods of a room on, and runs of the theorems about them (module/chat/src/Room.cpp).
mod Games
use social_gaming_platform.Prelude.{
  length, filter, ℕ, ◌-◌, ◌^◌, ◌≤◌, ◌<◌, ◌≡◌, ◌⊎◌, refl, true, false, none, some, [], ◌∷◌, arith,
  codes, drop, take, Bool, if◌then◌else◌,
}
use social_gaming_platform.Run.{ok, undefined, pure}
use social_gaming_platform.Run.Keeps.{Holds}
use social_gaming_platform.Std.PtrSet
use social_gaming_platform.Chat.User.{make_user}
use social_gaming_platform.Chat.Member.{
  Member, player, player_waitlist, is_player, is_spectator, ptr,
}
use social_gaming_platform.Chat.Member.Map
use social_gaming_platform.Chat.Member.Cache.{cache_of}
use social_gaming_platform.Game.Controller.{Controller, QuitsCleanly, default}
use social_gaming_platform.Chat.Room.{Room, World, player_count, spectator_count, is_game_active}
use social_gaming_platform.Chat.Room.Invariant.{Inv}
use social_gaming_platform.Chat.Room.Good.{Good}
use social_gaming_platform.Chat.Room.Moves.{Moves-refl}
use social_gaming_platform.Chat.Room.Waitlist.{flush_waitlist, set_player_limit, with_status}
use social_gaming_platform.Chat.Room.Membership.{
  Signals, IsQuiet, as_player, as_player_waiting, add_user, remove_user,
}
use social_gaming_platform.Chat.Room.Waitlist.{overflow}
use social_gaming_platform.Chat.Room.Joins.{add_user-Good}
use social_gaming_platform.Chat.Room.Leaves.{remove_user-Good, remove_user-undefined}
use social_gaming_platform.Chat.Room.Limit.{Fits}
use social_gaming_platform.Chat.Room.JoinLimit.{limit_lem}
use social_gaming_platform.Chat.Room.SetLimit.{set_player_limit_lem}
use social_gaming_platform.Chat.Room.Waiting.{
  NobodyWaits, Served, has_id, on_found, flush_waitlist_serves,
}

-- Listeners that tell the owner-to-be, and nothing else.
abbrev pub listeners : Signals (Unit {0})
listeners = record {
  on_owner_change = λ p w. record w { sent = (p.id, codes "owner") ∷ w.sent };
  on_member_join = λ p w. record w { sent = (p.id, codes "welcome") ∷ w.sent };
  on_member_leave = λ p w. w;
}

pub listeners-IsQuiet : IsQuiet listeners
listeners-IsQuiet = record {
  owner_change = λ p w. refl;
  member_join = λ p w. refl;
  member_leave = λ p w. refl;
}

-- A game that takes no message and does nothing.
abbrev pub idle_game : Controller (Unit {0})
idle_game = record {
  initialize = pure tt;
  intercept_player_message = λ u t. pure default;
  intercept_player_command = λ u d. pure default;
  intercept_spectator_message = λ u t. pure default;
  intercept_spectator_command = λ u d. pure default;
  on_player_quit = λ u. pure tt;
  on_option_change = λ k v. pure none;
  list_option_descriptions = λ w. [];
  update = pure tt;
  start = pure tt;
}

pub idle_game-QuitsCleanly : QuitsCleanly idle_game
idle_game-QuitsCleanly = record { at = λ u w there. (w, refl, Moves-refl w.room) }

abbrev seat : ℕ → Member
seat u = record {
  user = u;
  since = u;
  unique = u;
  status = player;
  disqualified = false;
  suppress_broadcasts = false;
}

abbrev pub alice : Member
alice = seat 1

abbrev pub bob : Member
bob = record (seat 2) { status = player_waitlist }

abbrev pub carol : Member
carol = record (seat 3) { disqualified = true }

-- An active player, who owns the room, a member on the waitlist and a disqualified one, between games.
abbrev pub hall : Room (Unit {0})
hall = record {
  owner = some (ptr alice);
  created_at = 0;
  id = codes "HALL";
  player_limit = 8;
  spectator_limit = 12;
  players_disqualified = 1;
  members = alice ∷ bob ∷ carol ∷ [];
  cached_users = ptr alice ∷ ptr bob ∷ ptr carol ∷ [];
  cached_players = ptr alice ∷ [];
  cached_spectators = ptr bob ∷ ptr carol ∷ [];
  cached_users_as_spectators = ptr alice ∷ ptr bob ∷ ptr carol ∷ [];
  game = some tt;
  game_started = false;
}

pub hall-Inv : Inv hall
unfolding cache_of PtrSet.insert is_player is_spectator
hall-Inv = record {
  distinct = (
    (omega arith, (omega arith, tt)),
    (omega arith, (omega arith, tt)),
    ((omega arith, tt), (omega arith, tt), (tt, tt, tt)),
  );
  bounded = omega arith;
  users_ok = refl;
  users_as_spectators_ok = refl;
  players_ok = refl;
  spectators_ok = refl;
  disqualified_ok = refl;
}

pub hall-Good : Good hall
unfolding Map.find
hall-Good = record { inv = hall-Inv; owned = (alice, refl, refl); playable = λ h. cc }

-- The hall in a game.
abbrev pub arena : Room (Unit {0})
arena = record hall { game_started = true }

arena-Inv : Inv arena
arena-Inv = record {
  distinct = hall-Inv.distinct;
  bounded = hall-Inv.bounded;
  users_ok = hall-Inv.users_ok;
  users_as_spectators_ok = hall-Inv.users_as_spectators_ok;
  players_ok = hall-Inv.players_ok;
  spectators_ok = hall-Inv.spectators_ok;
  disqualified_ok = hall-Inv.disqualified_ok;
}

arena-Good : Good arena
unfolding Map.find
arena-Good = record { inv = arena-Inv; owned = (alice, refl, refl); playable = λ h. cc }

abbrev pub world_of : Room (Unit {0}) → World (Unit {0})
world_of r = record {
  room = r;
  users = λ u. make_user (codes "user");
  counter = 9;
  sent = [];
  freed_reads = true;
}

add_user-Good_example :
    Holds (λ w'. Good w'.room) (add_user listeners 4 4 as_player_waiting (world_of hall))
add_user-Good_example =
    add_user-Good listeners listeners-IsQuiet 4 4 as_player_waiting (world_of hall)
      (omega arith, (omega arith, (omega arith, tt))) (omega arith) hall-Good

remove_user-Good_example :
    (w' : World (Unit {0})) × (remove_user listeners idle_game 1 (world_of arena) ≡ ok tt w')
    × Good w'.room
    × (Map.find 1 w'.room.members ≡ none)
remove_user-Good_example =
    remove_user-Good listeners listeners-IsQuiet idle_game idle_game-QuitsCleanly 1 (world_of arena)
      refl arena-Good

hall-Fits : Fits hall
unfolding player_count
hall-Fits = omega arith

limit_lem_example :
    Holds (λ w'. Fits w'.room) (add_user listeners 4 4 as_player (world_of hall))
    × Fits (flush_waitlist hall)
limit_lem_example =
    limit_lem listeners listeners-IsQuiet 4 4 as_player (world_of hall)
      (omega arith, (omega arith, (omega arith, tt))) (omega arith) hall-Inv hall-Fits

hall-idle : is_game_active hall ≡ false
unfolding is_game_active
hall-idle = refl

flush_waitlist_serves_example :
    (((flush_waitlist hall).player_limit ≤ player_count (flush_waitlist hall))
      ⊎ NobodyWaits (flush_waitlist hall))
    × ((u : ℕ) → Served (Map.find u hall.members) (Map.find u (flush_waitlist hall).members))
flush_waitlist_serves_example = flush_waitlist_serves hall hall-idle hall-Inv

-- Two active players.
abbrev duo : Room (Unit {0})
duo = record hall {
  players_disqualified = 0;
  members = alice ∷ seat 2 ∷ [];
  cached_users = ptr alice ∷ ptr (seat 2) ∷ [];
  cached_players = ptr alice ∷ ptr (seat 2) ∷ [];
  cached_spectators = [];
  cached_users_as_spectators = ptr alice ∷ ptr (seat 2) ∷ [];
}

duo-Inv : Inv duo
unfolding cache_of PtrSet.insert is_player is_spectator
duo-Inv = record {
  distinct = ((omega arith, tt), (omega arith, tt), (tt, tt, tt));
  bounded = omega arith;
  users_ok = refl;
  users_as_spectators_ok = refl;
  players_ok = refl;
  spectators_ok = refl;
  disqualified_ok = refl;
}

duo-small : player_count duo < 2 ^ 63
unfolding player_count
duo-small = omega arith

set_player_limit_lem_example :
    (r' : Room (Unit {0})) × (set_player_limit 1 duo ≡ ok tt r')
    × (r'.cached_players ≡ drop (player_count duo - 1) duo.cached_players)
    × ((u : ℕ)
        → Map.find u r'.members ≡ (
            if has_id u (take (player_count duo - 1) duo.cached_players)
            then on_found (with_status player_waitlist) (Map.find u duo.members)
            else Map.find u duo.members))
    × (player_count r' ≤ 1)
    × Inv r'
    × (r'.player_limit ≡ duo.player_limit)
set_player_limit_lem_example =
    set_player_limit_lem 1 duo (omega arith) (omega arith) duo-small refl duo-Inv

pub alice-in_hall : Map.find 1 hall.members ≡ some alice
unfolding Map.find
alice-in_hall = refl

alice-plays : is_player alice ≡ true
unfolding is_player
alice-plays = refl

-- In an arena whose erased entries do not read as they were.
remove_user-undefined_example :
    remove_user listeners idle_game 1 (record (world_of arena) { freed_reads = false }) ≡ undefined
remove_user-undefined_example =
    remove_user-undefined listeners listeners-IsQuiet idle_game 1 alice
      (record (world_of arena) { freed_reads = false }) refl alice-in_hall arena-Good
