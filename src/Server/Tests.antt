-- ===== src/Server/Tests.antt =====
-- Runs of the theorems about ServerManager (module/server/src/ServerManager.cpp).
use social_gaming_platform.Prelude.{
  true, false, [], ◌∷◌, codes, ◌==◌, if◌then◌else◌, ◌≡◌, refl, arith, inl, inr, Bool-cases,
}
use social_gaming_platform.Run.{undefined}
use social_gaming_platform.Chat.User.{make_user}
use social_gaming_platform.Chat.Room.{make_room, find_player}
use social_gaming_platform.Chat.Room.Good.{make_room-Good}
use social_gaming_platform.Chat.Room.Tests.{hall, hall-Good, idle_game, idle_game-QuitsCleanly}
use social_gaming_platform.Server.{ServerManager, find_user_room}
use social_gaming_platform.Server.Movement.{user_join_room, user_leave_room}
use social_gaming_platform.Server.Registry.{look_up}
use social_gaming_platform.Server.Upkeep.{WellKept, Joined, user_join_room_lem}
use social_gaming_platform.Server.Leaving.{LeftAs, user_leave_room_lem}

-- The hall is the room 0, and the room 1 is new.
abbrev pub server : ServerManager (Unit {0})
server = record {
  userid_to_user = (1, 1) ∷ (2, 2) ∷ (3, 3) ∷ (4, 4) ∷ [];
  userid_to_room = (1, 0) ∷ (2, 0) ∷ (3, 0) ∷ [];
  roomid_to_room = (codes "HALL", 0) ∷ (codes "ATTIC", 1) ∷ [];
  rooms_made = 2;
  room_at = λ h. if h == 0 then hall else make_room (codes "ATTIC") 5 false;
  users = λ u. make_user (codes "user");
  counter = 9;
  sent = [];
  freed_reads = true;
}

pub server-WellKept : WellKept server
unfolding look_up
server-WellKept = record {
  rooms_good = λ h. elim (Bool-cases (h == 0)) [
    | inl e ↦ rw e hall-Good
    | inr e ↦ rw e (make_room-Good (codes "ATTIC") 5)
  ];
  users_once = (refl, (refl, (refl, tt)));
}

user_join_room_lem_example :
    Joined 4 0 (find_user_room 4 server) (user_join_room 7 4 0 (codes "golden_fox12") server)
user_join_room_lem_example =
    user_join_room_lem 7 4 0 (codes "golden_fox12") server server-WellKept
      (omega arith, (omega arith, (omega arith, tt))) (omega arith)

-- The user 2 is on the waitlist, the user 1 plays.
waiting_leaves : user_leave_room idle_game 2 0 server ≡ undefined
unfolding find_player
waiting_leaves =
    user_leave_room_lem idle_game idle_game-QuitsCleanly 2 0 server server-WellKept refl

user_leave_room_lem_example :
    LeftAs 1 0 (find_player 1 (server.room_at 0)) (user_leave_room idle_game 1 0 server)
user_leave_room_lem_example =
    user_leave_room_lem idle_game idle_game-QuitsCleanly 1 0 server server-WellKept refl
