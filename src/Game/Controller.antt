-- ===== src/Game/Controller.antt =====
-- module/game/include/Controller.hpp: what a room asks of a game. `G` is the controller's own state; it
-- reaches the room through its environment, so each call runs on the room's world.
use social_gaming_platform.Prelude.{ℕ, Text, Option, none, List, ◌≡◌, ◌≢◌}
use social_gaming_platform.Run.{Run, ok}
use social_gaming_platform.Run.Keeps.{HoldsOr}
use social_gaming_platform.Command.{Command}
use social_gaming_platform.Chat.Room.{World}
use social_gaming_platform.Chat.Room.Moves.{Moves}

-- Controller::Intercept.
pub data Intercept : Type 0 where
  intercepted default : Intercept

-- A user is passed by the id. The error text of an option is `some`.
pub record Controller (G : Type 0) : Type 0 where
  pub initialize : Run (World G) (Unit {0})
  pub intercept_player_message : ℕ → Text → Run (World G) Intercept
  pub intercept_player_command : ℕ → Command → Run (World G) Intercept
  pub intercept_spectator_message : ℕ → Text → Run (World G) Intercept
  pub intercept_spectator_command : ℕ → Command → Run (World G) Intercept
  pub on_player_quit : ℕ → Run (World G) (Unit {0})
  pub on_option_change : Text → Text → Run (World G) (Option Text)
  pub list_option_descriptions : World G → List (Text × Text)
  pub update : Run (World G) (Unit {0})
  pub start : Run (World G) (Unit {0})

-- A controller that reaches the room through the methods of Environment alone, which move members
-- between the cached sets: no call adds a member, removes one or changes the owner. `D` says what is known
-- where the game does something undefined: `⊥` for a game that never does.
pub record IsConfined {G : Type 0} (D : Type 0) (c : Controller G) : Type 0 where
  pub initialize : (w : World G) → HoldsOr D (λ w'. Moves w.room w'.room) (c.initialize w)
  pub intercept_player_message :
      (u : ℕ) (t : Text) (w : World G)
      → HoldsOr D (λ w'. Moves w.room w'.room) (c.intercept_player_message u t w)
  pub intercept_player_command :
      (u : ℕ) (d : Command) (w : World G)
      → HoldsOr D (λ w'. Moves w.room w'.room) (c.intercept_player_command u d w)
  pub intercept_spectator_message :
      (u : ℕ) (t : Text) (w : World G)
      → HoldsOr D (λ w'. Moves w.room w'.room) (c.intercept_spectator_message u t w)
  pub intercept_spectator_command :
      (u : ℕ) (d : Command) (w : World G)
      → HoldsOr D (λ w'. Moves w.room w'.room) (c.intercept_spectator_command u d w)
  pub on_player_quit :
      (u : ℕ) (w : World G) → HoldsOr D (λ w'. Moves w.room w'.room) (c.on_player_quit u w)
  pub on_option_change :
      (k v : Text) (w : World G) → HoldsOr D (λ w'. Moves w.room w'.room) (c.on_option_change k v w)
  pub update : (w : World G) → HoldsOr D (λ w'. Moves w.room w'.room) (c.update w)
  pub start : (w : World G) → HoldsOr D (λ w'. Moves w.room w'.room) (c.start w)

-- A controller that survives the leaving of a player, without a throw, where the room has a game.
pub record QuitsCleanly {G : Type 0} (c : Controller G) : Type 0 where
  pub at :
      (u : ℕ) (w : World G)
      → w.room.game ≢ none
      → (w' : World G) × (c.on_player_quit u w ≡ ok tt w') × Moves w.room w'.room
