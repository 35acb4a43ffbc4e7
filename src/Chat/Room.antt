-- ===== src/Chat/Room.antt =====
-- module/chat/include/Room.hpp, module/chat/src/Room.cpp: the state of a game room and its queries.
-- The methods that change a room are in the modules below.
pub mod Caches
pub mod Invariant
pub mod Waitlist
pub mod Membership
pub mod Moves
pub mod Counts
pub mod Good
pub mod Joins
pub mod Entered
pub mod Leaves
pub mod UserSet
pub mod GameKept
pub mod Lookup
pub mod Limit
pub mod JoinLimit
pub mod SetLimit
pub mod SpectatorLimit
pub mod Waiting
pub mod Resets
pub mod Games
pub mod Routing
pub mod Wins
pub mod Play
pub mod Tests
use social_gaming_platform.Prelude.{
  ℕ, ◌+◌, ◌-◌, ◌%◌, ◌^◌, Bool, true, false, Option, none, some, List, [], ◌∷◌, ◌++◌, Text, leb,
  ◌==◌, if◌then◌else◌, length, text_eq, not, map, filter,
}
use social_gaming_platform.Std.PtrSet.{MemberPtr}
use social_gaming_platform.Chat.User.{User}
use social_gaming_platform.Chat.Member.{Member}
use social_gaming_platform.Chat.Member.Map

-- The values of a 64-bit size_t.
abbrev pub size_mod : ℕ
size_mod = 2 ^ 64

-- `G` is the state of a game controller. The signals are not part of the record: their listeners are
-- parameters of the methods that fire them.
pub record Room (G : Type 0) : Type 0 where
  pub owner : Option MemberPtr
  pub created_at : ℕ
  pub id : Text
  pub player_limit : ℕ
  pub spectator_limit : ℕ
  pub players_disqualified : ℕ
  pub members : List Member
  pub cached_users : List MemberPtr
  pub cached_players : List MemberPtr
  pub cached_spectators : List MemberPtr
  pub cached_users_as_spectators : List MemberPtr
  pub game : Option G
  pub game_started : Bool

-- Room::Room(Room::Id). The constructor leaves `_game_started` as the memory was: `garbage`.
unfoldable pub make_room : {G : Type 0} → Text → ℕ → Bool → Room G
make_room id now garbage = record {
  owner = none;
  created_at = now;
  id = id;
  player_limit = 8;
  spectator_limit = 12;
  players_disqualified = 0;
  members = [];
  cached_users = [];
  cached_players = [];
  cached_spectators = [];
  cached_users_as_spectators = [];
  game = none;
  game_started = garbage;
}

-- What a method of a room can reach: the room, the shared users, the counter of members, the texts sent to
-- users so far, the oldest first, and the memory: whether an entry of the map that was erased still reads
-- as it was. If not, reading it is undefined.
pub record World (G : Type 0) : Type 0 where
  pub room : Room G
  pub users : ℕ → User
  pub counter : ℕ
  pub sent : List (ℕ × Text)
  pub freed_reads : Bool

abbrev pub on_room : {G : Type 0} → (Room G → Room G) → World G → World G
on_room f w = record w { room = f w.room }

module _ {G : Type 0} where
  unfoldable pub is_game_active : Room G → Bool
  is_game_active r = r.game_started

  unfoldable pub is_game_loaded : Room G → Bool
  is_game_loaded r = elim r.game [ none ↦ false | some g ↦ true ]

  unfoldable pub player_count : Room G → ℕ
  player_count r = (length r.cached_players + r.players_disqualified) % size_mod

  unfoldable pub active_player_count : Room G → ℕ
  active_player_count r = length r.cached_players

  unfoldable pub spectator_count : Room G → ℕ
  spectator_count r = (length r.cached_spectators + size_mod - r.players_disqualified) % size_mod

  unfoldable pub user_count : Room G → ℕ
  user_count r = length r.members

  unfoldable pub is_full : Room G → Bool
  unfolding player_count
  is_full r = leb r.player_limit (player_count r)

  unfoldable pub spectators : Room G → List MemberPtr
  unfolding is_game_active
  spectators r = if is_game_active r then r.cached_spectators else r.cached_users_as_spectators

  -- Room::_find_member by the user's id.
  unfoldable pub find_member : ℕ → Room G → Option Member
  unfolding Map.find
  find_member u r = Map.find u r.members

-- std::find_if over a cached set, by the id of the pointee's user.
unfoldable pub find_by_id : ℕ → List MemberPtr → Option MemberPtr
find_by_id u [] = none
find_by_id u (p ∷ s) = if p.id == u then some p else find_by_id u s

-- std::find_if over a cached set, by the name that the pointee's user has now.
unfoldable pub find_by_name : (ℕ → User) → Text → List MemberPtr → Option MemberPtr
find_by_name users n [] = none
find_by_name users n (p ∷ s) =
    if text_eq (users p.id).name n then some p else find_by_name users n s

module _ {G : Type 0} where
  unfoldable pub find_player : ℕ → Room G → Option MemberPtr
  unfolding find_by_id
  find_player u r = find_by_id u r.cached_players

  unfoldable pub find_spectator : ℕ → Room G → Option MemberPtr
  unfolding find_by_id spectators
  find_spectator u r = find_by_id u (spectators r)

  unfoldable pub find_user : ℕ → Room G → Option MemberPtr
  unfolding find_by_id
  find_user u r = find_by_id u r.cached_users

  unfoldable pub find_player_named : Text → World G → Option MemberPtr
  unfolding find_by_name
  find_player_named n w = find_by_name w.users n w.room.cached_players

  unfoldable pub find_spectator_named : Text → World G → Option MemberPtr
  unfolding find_by_name spectators
  find_spectator_named n w = find_by_name w.users n (spectators w.room)

  unfoldable pub find_user_named : Text → World G → Option MemberPtr
  unfolding find_by_name
  find_user_named n w = find_by_name w.users n w.room.cached_users

-- Whether a broadcast reaches the pointee.
unfoldable pub hears : List Member → MemberPtr → Bool
unfolding Map.find
hears ms p = elim (Map.find p.id ms) [ none ↦ false | some m ↦ not m.suppress_broadcasts ]

module _ {G : Type 0} where
  unfoldable pub broadcast_message : Text → World G → World G
  unfolding hears
  broadcast_message t w = record w {
    sent = w.sent ++ map (λ p. (p.id, t)) (filter (hears w.room.members) w.room.cached_users);
  }

  unfoldable pub broadcast_message_to_spectators : Text → World G → World G
  unfolding hears spectators
  broadcast_message_to_spectators t w = record w {
    sent = w.sent ++ map (λ p. (p.id, t)) (filter (hears w.room.members) (spectators w.room));
  }

  -- User::send_message and its like, through the connection of one user.
  unfoldable pub send_to : ℕ → Text → World G → World G
  send_to u t w = record w { sent = w.sent ++ (u, t) ∷ [] }
