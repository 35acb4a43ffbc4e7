-- ===== src/Chat/User.antt =====
-- module/chat/src/User.cpp, module/chat/src/PlayerStats.cpp: the user objects that rooms share; and the
-- check of a nickname, module/chat/src/UserNickname.cpp.
use social_gaming_platform.Prelude.{
  ℕ, ◌+◌, ◌%◌, ◌^◌, Option, none, some, Text, ◌||◌, all, ◌==◌, if◌then◌else◌,
}
use social_gaming_platform.Command.{is_alnum}

-- The id is the key under which a user is kept. `id_text` is SessionId::to_string of it.
pub record User : Type 0 where
  pub id_text : Text
  pub name : Text
  pub nickname : Option Text
  pub wins : ℕ
  pub games : ℕ

-- User::User(SessionId).
unfoldable pub make_user : Text → User
make_user id_text = record {
  id_text = id_text;
  name = id_text;
  nickname = none;
  wins = 0;
  games = 0;
}

unfoldable pub set_nickname : Text → User → User
set_nickname n u = record u { name = n; nickname = some n }

unfoldable pub clear_nickname : User → User
clear_nickname u = record u { name = u.id_text; nickname = none }

-- `unsigned int` counters.
unfoldable pub increment_wins : User → User
increment_wins u = record u { wins = (u.wins + 1) % 2 ^ 32 }

unfoldable pub increment_games : User → User
increment_games u = record u { games = (u.games + 1) % 2 ^ 32 }

-- UserNickname::parse.
unfoldable pub parse_nickname : Text → Option Text
unfolding is_alnum
parse_nickname name = if all (λ c. is_alnum c || (c == 95 || c == 45)) name then some name else none
