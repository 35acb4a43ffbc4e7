-- ===== src/Chat/Room/Games.antt =====
-- The methods of a room that run a game, and the routing of messages and commands
-- (module/chat/src/Room.cpp).
use social_gaming_platform.Prelude.{
  ℕ, Bool, true, false, not, ◌&&◌, ◌||◌, Option, none, some, List, [], ◌∷◌, ◌++◌, Text, codes, ◌==◌,
  if◌then◌else◌, text_eq,
}
use social_gaming_platform.Run.{
  Run, ok, undefined, pure, gets, modify, throw_if, ◌>>=◌, ◌>>◌, chat_exception, requires_game,
}
use social_gaming_platform.Std.PtrSet.{MemberPtr}
use social_gaming_platform.Chat.User.{User, increment_wins}
use social_gaming_platform.Chat.Member.{Member, is_player, is_spectator, is_disqualified}
use social_gaming_platform.Chat.Member.Map
use social_gaming_platform.Command.{Command}
use social_gaming_platform.Chat.Room.{
  World, on_room, is_game_active, is_game_loaded, broadcast_message,
}
use social_gaming_platform.Chat.Room.Waitlist.{reset_players}
use social_gaming_platform.Chat.Room.Membership.{call_game}
use social_gaming_platform.Game.Controller.{Controller, Intercept, intercepted, default}

-- A write to one user object.
abbrev pub update_user : ℕ → (User → User) → (ℕ → User) → ℕ → User
update_user u f users v = if u == v then f (users v) else users v

-- `player->stats().increment_wins()` for each pointer.
unfoldable pub award_all : List MemberPtr → (ℕ → User) → ℕ → User
unfolding increment_wins
award_all [] users = users
award_all (p ∷ s) users = award_all s (update_user p.id increment_wins users)

-- module/command/include/CommandMap.hpp: an executor gets the user's id and the arguments. `emplace`
-- keeps an entry that is there.
abbrev pub Executor : Type 0 → Type 0
Executor G = ℕ → List Text → Run (World G) (Unit {0})

module _ {E : Type 0} where
  unfoldable pub find_command : Text → List (Text × E) → Option E
  find_command name [] = none
  find_command name ((n, e) ∷ map) = if text_eq n name then some e else find_command name map

  unfoldable pub insert_command : Text → E → List (Text × E) → List (Text × E)
  insert_command name e [] = (name, e) ∷ []
  insert_command name e ((n, d) ∷ map) =
      if text_eq n name then (n, d) ∷ map else (n, d) ∷ insert_command name e map

module _ {G : Type 0} where
  -- Room::end_game.
  unfoldable pub end_game : Run (World G) (Unit {0})
  end_game = do
    modify (on_room reset_players)
    modify (on_room (λ r. record r { game_started = false }))

module _ {G : Type 0} (c : Controller G) where
  -- Room::update_game.
  unfoldable pub update_game : Run (World G) (Unit {0})
  update_game w = (if is_game_active w.room then call_game c.update else pure tt) w

  -- Room::load_game, with the new controller's state.
  unfoldable pub load_game : G → Run (World G) (Unit {0})
  load_game g = do
    playing ← gets (λ w. is_game_loaded w.room && is_game_active w.room)
    if playing then end_game else pure tt
    modify (on_room (λ r. record r { game = some g }))
    c.initialize

  -- Room::start_game. The wins of the players are incremented, and the game counts as started before
  -- its `start` is called.
  unfoldable pub start_game : Run (World G) (Unit {0})
  start_game = do
    loaded ← gets (λ w. is_game_loaded w.room)
    throw_if (not loaded) (chat_exception requires_game none)
    modify (on_room reset_players)
    modify (λ w. record w { users = award_all w.room.cached_players w.users })
    modify (on_room (λ r. record r { game_started = true }))
    call_game c.start

  -- Room::game_option.
  unfoldable pub game_option : Text → Text → Run (World G) (Option Text)
  game_option key value = do
    loaded ← gets (λ w. is_game_loaded w.room)
    throw_if (not loaded) (chat_exception requires_game none)
    call_game (c.on_option_change key value)

  -- The game's part in process_message. `member->is_player()` is tested twice in the source.
  unfoldable pub intercept_message : Member → Text → Run (World G) Intercept
  intercept_message m text w =
      (if is_game_active w.room && is_player m
          then call_game (
              if is_player m && not (is_disqualified m)
              then c.intercept_player_message m.user text
              else c.intercept_spectator_message m.user text)
          else pure default)
        w

  -- The text that a message goes out as.
  unfoldable pub outbound : Member → Text → World G → Text
  outbound m text w =
      let prefix =
        if is_game_loaded w.room && (is_spectator m || is_disqualified m)
        then codes "[spectator] "
        else [] in
      prefix ++ ((w.users m.user).name ++ (codes ": " ++ text))

  -- The rest of process_message, unless the game took the message. The entry is read again, after the
  -- game; without an entry its pointer would dangle.
  unfoldable pub deliver : ℕ → Text → Intercept → Run (World G) Bool
  deliver u text intercepted w = ok true w
  deliver u text default w = elim (Map.find u w.room.members) [
    | none ↦ undefined
    | some m ↦ ok true (broadcast_message (outbound m text w) w)
  ]

  -- Room::process_message.
  unfoldable pub process_message : ℕ → Text → Run (World G) Bool
  process_message u text w = elim (Map.find u w.room.members) [
    | none ↦ ok false w
    | some m ↦ (do taken ← intercept_message m text; deliver u text taken) w
  ]

module _ {G : Type 0} (c : Controller G) (commands : List (Text × Executor G)) where
  -- The game's part in process_command.
  unfoldable pub intercept_command : Member → Command → Run (World G) Intercept
  intercept_command m d w =
      (if is_game_active w.room
          then call_game (
              if is_player m && not (is_disqualified m)
              then c.intercept_player_command m.user d
              else c.intercept_spectator_command m.user d)
          else pure default)
        w

  -- A search of the room's commands and, if there is one, its execution.
  unfoldable pub execute_command : Member → Command → Run (World G) Bool → Run (World G) Bool
  execute_command m d otherwise = elim (find_command d.name commands) [
    | none ↦ otherwise
    | some execute ↦ (do execute m.user d.arguments; pure true)
  ]

  abbrev pub after_game : Member → Command → Intercept → Run (World G) Bool
  after_game m d intercepted = pure true
  after_game m d default = execute_command m d (pure false)

  -- Room::process_command. Both searches are made in `commands`; `protected_commands` is not consulted.
  unfoldable pub process_command : ℕ → Command → Run (World G) Bool
  process_command u d w = elim (Map.find u w.room.members) [
    | none ↦ ok false w
    | some m ↦ execute_command m d (do taken ← intercept_command m d; after_game m d taken) w
  ]
