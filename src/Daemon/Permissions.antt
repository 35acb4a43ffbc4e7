-- ===== src/Daemon/Permissions.antt =====
-- Who may run a command of a room, and that the commands keep a room well formed
-- (module/server_daemon/src/commands.cpp).
use social_gaming_platform.Prelude.{
  ℕ, Option, none, some, List, [], ◌∷◌, ◌++◌, Text, codes, ◌==◌, ◌≡◌, ◌≢◌, refl, arith, inl, inr,
  Bool-cases,
}
use social_gaming_platform.Run.{Run, Outcome, ok}
use social_gaming_platform.Std.PtrSet.{MemberPtr}
use social_gaming_platform.Game.Controller.{Controller}
use social_gaming_platform.Chat.Room.{World, send_to}
use social_gaming_platform.Chat.Room.Membership.{Signals}
use social_gaming_platform.Daemon.RoomCommands.{
  by_owner, kick_command, option_command, options_command, load_command, end_command, start_command,
}

-- The method did nothing but send one text to the user.
abbrev pub Refused : {G : Type 0} → ℕ → World G → Outcome (World G) (Unit {0}) → Type 0
Refused u w o = (t : Text) × (o ≡ ok tt (send_to u t w))

module _ {G : Type 0} (u : ℕ) (o : MemberPtr) (apart : o.id ≢ u) where
  by_owner-Refused :
      (own : Option MemberPtr) (t : Text) (rest : Run (World G) (Unit {0})) (w : World G)
      → own ≡ some o
      → Refused u w (by_owner own u t rest w)
  by_owner-Refused none t rest w e = cc
  by_owner-Refused (some p) t rest w e = elim (Bool-cases (p.id == u)) [
    | inl hit ↦ absurd (apart (ground (arith, hit, e)))
    | inr miss ↦ (codes "Error: " ++ t, rw miss refl)
  ]

  module _ (s : Signals G) (c : Controller G) (fresh : G) (w : World G)
      (owned : w.room.owner ≡ some o) where
    kick-Refused : (args : List Text) → Refused u w (kick_command s c u args w)
    unfolding kick_command
    kick-Refused [] = (_, refl)
    kick-Refused (a ∷ []) = by_owner-Refused w.room.owner _ _ w owned
    kick-Refused (a ∷ b ∷ args) = (_, refl)

    option-Refused : (args : List Text) → Refused u w (option_command c u args w)
    unfolding option_command
    option-Refused [] = (_, refl)
    option-Refused (a ∷ []) = (_, refl)
    option-Refused (a ∷ b ∷ []) = by_owner-Refused w.room.owner _ _ w owned
    option-Refused (a ∷ b ∷ d ∷ args) = (_, refl)

    options-Refused : (args : List Text) → Refused u w (options_command c u args w)
    unfolding options_command
    options-Refused [] = by_owner-Refused w.room.owner _ _ w owned
    options-Refused (a ∷ args) = (_, refl)

    load-Refused : (args : List Text) → Refused u w (load_command c fresh u args w)
    unfolding load_command
    load-Refused [] = (_, refl)
    load-Refused (a ∷ []) = by_owner-Refused w.room.owner _ _ w owned
    load-Refused (a ∷ b ∷ args) = (_, refl)

    end-Refused : (args : List Text) → Refused u w (end_command c u args w)
    unfolding end_command
    end-Refused [] = by_owner-Refused w.room.owner _ _ w owned
    end-Refused (a ∷ args) = (_, refl)

    start-Refused : (args : List Text) → Refused u w (start_command c u args w)
    unfolding start_command
    start-Refused [] = by_owner-Refused w.room.owner _ _ w owned
    start-Refused (a ∷ args) = (_, refl)

    -- For a user who does not own the room, whatever the arguments, /kick, /option, /options, /load, /end
    -- and /start only send that user a text: the room, the users and the game stay as they were.
    pub owner_commands_lem :
        (args : List Text)
        → Refused u w (kick_command s c u args w)
          × Refused u w (option_command c u args w)
          × Refused u w (options_command c u args w)
          × Refused u w (load_command c fresh u args w)
          × Refused u w (end_command c u args w)
          × Refused u w (start_command c u args w)
    owner_commands_lem args = (
      kick-Refused args,
      option-Refused args,
      options-Refused args,
      load-Refused args,
      end-Refused args,
      start-Refused args,
    )
