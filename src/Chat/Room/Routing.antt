-- ===== src/Chat/Room/Routing.antt =====
-- Room::process_command, Room::process_message and the methods that run a game
-- (module/chat/src/Room.cpp): where a command goes, and that a room stays well formed.
use social_gaming_platform.Prelude.{
  ℕ, ◌≡◌, refl, Bool, true, false, Option, none, some, List, inl, inr, Option-cases, Text,
}
use social_gaming_platform.Run.{Run, Outcome, ok, threw, undefined, pure, continue, ◌>>=◌, ◌>>◌}
use social_gaming_platform.Chat.Member.{Member}
use social_gaming_platform.Chat.Member.Map
use social_gaming_platform.Command.{Command}
use social_gaming_platform.Game.Controller.{Controller, Intercept, intercepted, default}
use social_gaming_platform.Chat.Room.{World}
use social_gaming_platform.Chat.Room.Games

-- The answer of a room to a command that it has no executor for.
abbrev pub taken : Intercept → Bool
taken intercepted = true
taken default = false

module _ {G : Type 0} (c : Controller G) (commands : List (Text × Games.Executor G)) where
  -- A command is routed by one search: to the executor that the room has for it, and without one to the
  -- game, whose answer is the answer of the room.
  abbrev pub route : Member → Command → Option (Games.Executor G) → Run (World G) Bool
  route m d (some execute) w = (do execute m.user d.arguments; pure true) w
  route m d none w = (do i ← Games.intercept_command c commands m d; pure (taken i)) w

  not_there :
      (m : Member) (d : Command) (w : World G)
      → Games.find_command d.name commands ≡ none
      → Games.execute_command c commands m d (pure false) w ≡ ok false w
  unfolding Games.execute_command
  not_there m d w e = rw (e, Games.execute_command) refl

  after_game_lem :
      (m : Member) (d : Command) (o : Outcome (World G) Intercept)
      → Games.find_command d.name commands ≡ none
      → continue o (Games.after_game c commands m d) ≡ continue o (λ i. pure (taken i))
  after_game_lem m d (ok intercepted w) e = refl
  after_game_lem m d (ok default w) e = not_there m d w e
  after_game_lem m d (threw x w) e = refl
  after_game_lem m d undefined e = refl

  -- A command of a member goes where one search of the room's commands sends it: the room's own
  -- executor always comes before the game, and the search that follows the game never finds anything.
  pub process_command_lem :
      (u : ℕ) (m : Member) (d : Command) (w : World G)
      → Map.find u w.room.members ≡ some m
      → Games.process_command c commands u d w ≡ route m d (Games.find_command d.name commands) w
  unfolding Games.process_command Games.execute_command
  process_command_lem u m d w found = elim (Option-cases (Games.find_command d.name commands)) [
    | inl e ↦
        rw (found, Games.process_command, e, Games.execute_command)
          (after_game_lem m d (Games.intercept_command c commands m d w) e)
    | inr (x, e) ↦ rw (found, Games.process_command, e, Games.execute_command) refl
  ]
