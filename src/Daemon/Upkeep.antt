-- ===== src/Daemon/Upkeep.antt =====
-- The commands of a room keep it well formed (module/server_daemon/src/commands.cpp).
use social_gaming_platform.Prelude.{
  ℕ, Bool, true, false, not, Option, none, some, List, [], ◌∷◌, ◌++◌, Text, codes, ◌==◌, ◌≡◌, ◌≢◌,
  text_eq, sym,
}
use mathlib.Core.Path.{subst}
use social_gaming_platform.Run.{
  Run, Outcome, ok, threw, undefined, game_exception, chat_exception, runtime_error,
  library_exception,
}
use social_gaming_platform.Run.Keeps.{HoldsOr, HoldsOr-continue, KeepsOr}
use social_gaming_platform.Std.PtrSet.{MemberPtr}
use social_gaming_platform.Chat.Member.{Member}
use social_gaming_platform.Chat.Member.Map
use social_gaming_platform.Chat.User.{parse_nickname}
use social_gaming_platform.Game.Controller.{Controller, IsConfined, QuitsCleanly}
use social_gaming_platform.Chat.Room.{
  World, send_to, is_game_loaded, find_user_named, broadcast_message,
}
use social_gaming_platform.Chat.Room.Good.{Good, Owned}
use social_gaming_platform.Chat.Room.Membership.{Signals, IsQuiet, remove_user}
use social_gaming_platform.Chat.Room.Leaves.{remove_user-Good}
use social_gaming_platform.Chat.Room.Games
use social_gaming_platform.Chat.Room.Play.{game_methods-Good}
use social_gaming_platform.Daemon.RoomCommands.{
  tell, require, by_owner, owner_only, kick, kick_named, kick_command, option_command,
  options_command, load_command, end_command, start_command, catch_game, list_options, report,
  say_options,
}

nobody : (u : ℕ) (m : Member) (ms : List Member) → ms ≡ [] → Map.find u ms ≢ some m
unfolding Map.find
nobody u m [] e h = cc
nobody u m (x ∷ ms) e h = cc

module _ {G : Type 0} where
  abbrev Fine : World G → Type 0
  Fine w = Good w.room

  send_to-Fine : (u : ℕ) (t : Text) (w : World G) → Fine w → Fine (send_to u t w)
  unfolding send_to
  send_to-Fine u t w g = g

  tell-Fine : (D : Type 0) (u : ℕ) (t : Text) → KeepsOr D Fine (tell u t)
  tell-Fine D u t = record { at = send_to-Fine u t }

  require-Fine :
      (D : Type 0) (b : Bool) (u : ℕ) (t : Text) (rest : Run (World G) (Unit {0})) (w : World G)
      → Fine w
      → HoldsOr D Fine (rest w)
      → HoldsOr D Fine (require b u t rest w)
  require-Fine D true u t rest w g h = h
  require-Fine D false u t rest w g h = send_to-Fine u (codes "Error: " ++ t) w g

  by_owner-Fine :
      (D : Type 0) (own : Option MemberPtr) (u : ℕ) (m : Member) (t : Text)
      (rest : Run (World G) (Unit {0})) (w : World G)
      → Owned own w.room.members
      → Map.find u w.room.members ≡ some m
      → Fine w
      → HoldsOr D Fine (rest w)
      → HoldsOr D Fine (by_owner own u t rest w)
  by_owner-Fine D none u m t rest w empty e g h = absurd (nobody u m w.room.members empty e)
  by_owner-Fine D (some o) u m t rest w own e g h = require-Fine D (o.id == u) u t rest w g h

  list_options-Fine :
      (u : ℕ) (os : List (Text × Text)) (w : World G) → Fine w → Fine (list_options u os w)
  unfolding list_options send_to
  list_options-Fine u [] w g = g
  list_options-Fine u ((k, a) ∷ os) w g = list_options-Fine u os _ g

  say_options-Fine :
      (D : Type 0) (u : ℕ) (os : List (Text × Text)) (w : World G)
      → Fine w
      → HoldsOr D Fine (say_options u os w)
  say_options-Fine D u [] w g = send_to-Fine u (codes "This game doesn't have any options.") w g
  say_options-Fine D u (o ∷ os) w g =
      list_options-Fine u (o ∷ os) (send_to u (codes "Options:") w)
        (send_to-Fine u (codes "Options:") w g)

  report-Fine : (D : Type 0) (u : ℕ) (r : Option Text) → KeepsOr D Fine (report u r)
  report-Fine D u none = record { at = λ w g. g }
  report-Fine D u (some e) = record { at = λ w g. send_to-Fine u (codes "Error: " ++ e) w g }

  catch_game-Fine :
      (D : Type 0) (u : ℕ) (o : Outcome (World G) (Unit {0}))
      → HoldsOr D Fine o
      → HoldsOr D Fine (catch_game u o)
  catch_game-Fine D u (ok a w) h = h
  catch_game-Fine D u (threw (game_exception t) w) h =
      send_to-Fine u (codes "Error: " ++ (codes "Failed to start the game. " ++ t)) w h
  catch_game-Fine D u (threw (chat_exception k d) w) h = h
  catch_game-Fine D u (threw (runtime_error t) w) h = h
  catch_game-Fine D u (threw (library_exception t) w) h = h
  catch_game-Fine D u undefined h = h

  broadcast-Fine : (t : Text) (w : World G) → Fine w → Fine (broadcast_message t w)
  unfolding broadcast_message
  broadcast-Fine t w g = g

module _ {G : Type 0} (D : Type 0) (c : Controller G) (quiet : IsConfined D c) (fresh : G) (u : ℕ)
    (m : Member) (w : World G) (present : Map.find u w.room.members ≡ some m)
    (g : Good w.room) where
  owner-Fine :
      (t : Text) (rest : Run (World G) (Unit {0}))
      → HoldsOr D Fine (rest w)
      → HoldsOr D Fine (owner_only u t rest w)
  owner-Fine t rest h = by_owner-Fine D w.room.owner u m t rest w g.owned present g h

  refused-Fine : (t : Text) → Fine (send_to u (codes "Error: " ++ t) w)
  refused-Fine t = send_to-Fine u (codes "Error: " ++ t) w g

  option-Fine : (args : List Text) → HoldsOr D Fine (option_command c u args w)
  unfolding option_command
  option-Fine [] = refused-Fine _
  option-Fine (a ∷ []) = refused-Fine _
  option-Fine (key ∷ value ∷ []) = owner-Fine _ _ (
      require-Fine D (is_game_loaded w.room) u _ _ w g (
        HoldsOr-continue D (Games.game_option c key value w) _
          (game_methods-Good D c quiet w fresh u key value [] g).4 (report-Fine D u)))
  option-Fine (a ∷ b ∷ d ∷ args) = refused-Fine _

  options-Fine : (args : List Text) → HoldsOr D Fine (options_command c u args w)
  unfolding options_command
  options-Fine [] = owner-Fine _ _ (
      require-Fine D (is_game_loaded w.room) u _ _ w g
        (say_options-Fine D u (c.list_option_descriptions w) w g))
  options-Fine (a ∷ args) = refused-Fine _

  load-Fine : (args : List Text) → HoldsOr D Fine (load_command c fresh u args w)
  unfolding load_command
  load-Fine [] = refused-Fine _
  load-Fine (a ∷ []) = owner-Fine _ _ (
      require-Fine D (text_eq a (codes "simon")) u _ _ w g (
        HoldsOr-continue D (Games.load_game c fresh w) _
          (game_methods-Good D c quiet w fresh u [] [] [] g).2
          (λ _. record {
            at = λ w' g'. send_to-Fine u _ _ (send_to-Fine u _ _ (send_to-Fine u _ w' g'));
          })))
  load-Fine (a ∷ b ∷ args) = refused-Fine _

  end-Fine : (args : List Text) → HoldsOr D Fine (end_command c u args w)
  unfolding end_command
  end-Fine [] = owner-Fine _ _ (
      require-Fine D (is_game_loaded w.room) u _ _ w g (
        HoldsOr-continue D (Games.end_game w) _ (game_methods-Good D c quiet w fresh u [] [] [] g).3
          (λ _. record {
            at = λ w' g'. broadcast-Fine ((w'.users u).name ++ codes " ended the game.") w' g';
          })))
  end-Fine (a ∷ args) = refused-Fine _

  start-Fine : (args : List Text) → HoldsOr D Fine (start_command c u args w)
  unfolding start_command
  start-Fine [] = owner-Fine _ _ (
      require-Fine D (is_game_loaded w.room) u _ _ w g (
        catch_game-Fine D u _ (
          HoldsOr-continue D (Games.start_game c w) _
            (game_methods-Good D c quiet w fresh u [] [] [] g).0 (λ _. tell-Fine D u _))))
  start-Fine (a ∷ args) = refused-Fine _

module _ {G : Type 0} (D : Type 0) (s : Signals G) (q : IsQuiet s) (c : Controller G)
    (quits : QuitsCleanly c) (u : ℕ) (w : World G) (reads : w.freed_reads ≡ true)
    (g : Good w.room) where
  removed-Fine : (v : ℕ) → HoldsOr D Fine (remove_user s c v w)
  removed-Fine v =
      let (w', e, good, gone) = remove_user-Good s q c quits v w reads g in
      subst (HoldsOr D Fine) (sym e) good

  kick-Fine : (name : Text) (found : Option MemberPtr) → HoldsOr D Fine (kick s c u name found w)
  unfolding kick
  kick-Fine name none = send_to-Fine u _ w g
  kick-Fine name (some p) =
      require-Fine D (not (p.id == u)) u _ _ w g
        (HoldsOr-continue D (remove_user s c p.id w) _ (removed-Fine p.id) (λ _. tell-Fine D u _))

  kick_named-Fine : (arg : Text) (name : Option Text) → HoldsOr D Fine (kick_named s c u arg name w)
  unfolding kick_named
  kick_named-Fine arg none = send_to-Fine u _ w g
  kick_named-Fine arg (some name) = kick-Fine name (find_user_named name w)

  kick_command-Fine :
      (m : Member)
      → Map.find u w.room.members ≡ some m
      → (args : List Text) → HoldsOr D Fine (kick_command s c u args w)
  unfolding kick_command
  kick_command-Fine m present [] = send_to-Fine u _ w g
  kick_command-Fine m present (a ∷ []) =
      by_owner-Fine D w.room.owner u m _ _ w g.owned present g
        (kick_named-Fine a (parse_nickname a))
  kick_command-Fine m present (a ∷ b ∷ args) = send_to-Fine u _ w g

-- The commands /kick, /option, /options, /load, /end and /start, sent by any member with any arguments,
-- keep a well-formed room well formed, whether they return or throw, and do nothing undefined of their own:
-- where one of them is undefined, the game was. The listeners only send messages, the game reaches the room
-- through its environment alone, and takes the quitting of a player without a throw; an erased entry still
-- reads as it was.
pub room_commands-Good :
    {G : Type 0} (D : Type 0) (s : Signals G) (q : IsQuiet s) (c : Controller G)
    (quiet : IsConfined D c) (quits : QuitsCleanly c) (fresh : G) (u : ℕ) (m : Member)
    (args : List Text) (w : World G)
    → Map.find u w.room.members ≡ some m
    → w.freed_reads ≡ true
    → Good w.room
    → HoldsOr D (λ w'. Good w'.room) (kick_command s c u args w)
      × HoldsOr D (λ w'. Good w'.room) (option_command c u args w)
      × HoldsOr D (λ w'. Good w'.room) (options_command c u args w)
      × HoldsOr D (λ w'. Good w'.room) (load_command c fresh u args w)
      × HoldsOr D (λ w'. Good w'.room) (end_command c u args w)
      × HoldsOr D (λ w'. Good w'.room) (start_command c u args w)
room_commands-Good D s q c quiet quits fresh u m args w present reads g = (
  kick_command-Fine D s q c quits u w reads g m present args,
  option-Fine D c quiet fresh u m w present g args,
  options-Fine D c quiet fresh u m w present g args,
  load-Fine D c quiet fresh u m w present g args,
  end-Fine D c quiet fresh u m w present g args,
  start-Fine D c quiet fresh u m w present g args,
)
