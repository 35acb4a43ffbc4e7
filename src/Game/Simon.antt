-- ===== src/Game/Simon.antt =====
-- The example game (module/server_daemon/src/EXAMPLE_Simon.cpp): players repeat what Simon says. The
-- game's own state lives in the room, where its methods find it.
pub mod Play
pub mod Moving
pub mod Confined
pub mod Tests
use social_gaming_platform.Prelude.{
  ℕ, Bool, true, false, ◌||◌, Option, none, some, List, [], ◌∷◌, ◌++◌, Text, codes, ◌==◌, ltb,
  if◌then◌else◌, text_eq,
}
use social_gaming_platform.Run.{
  Run, ok, undefined, pure, throw, throw_if, gets, modify, ◌>>=◌, ◌>>◌, game_exception,
}
use social_gaming_platform.Std.PtrSet.{MemberPtr}
use social_gaming_platform.Command.{Command}
use social_gaming_platform.Chat.User.{increment_wins, parse_nickname}
use social_gaming_platform.Game.Controller.{Controller, Intercept, intercepted, default}
use social_gaming_platform.Chat.Room.{
  World, on_room, is_game_active, player_count, active_player_count, find_player, find_player_named,
  find_spectator_named, broadcast_message, send_to,
}
use social_gaming_platform.Chat.Room.Waitlist.{disqualify_player}
use social_gaming_platform.Chat.Room.Games

-- The fields of EXAMPLE_Simon. `incomplete` is a set of ids, in their order.
pub record Simon : Type 0 where
  pub simon : ℕ
  pub simon_message : Text
  pub incomplete : List ℕ

-- std::set<Player::Id>.
unfoldable pub insert_id : ℕ → List ℕ → List ℕ
insert_id u [] = u ∷ []
insert_id u (v ∷ s) =
    let rest = insert_id u s in if ltb u v then u ∷ v ∷ s else if u == v then v ∷ s else v ∷ rest

unfoldable pub erase_id : ℕ → List ℕ → List ℕ
erase_id u [] = []
erase_id u (v ∷ s) = let rest = erase_id u s in if v == u then s else v ∷ rest

unfoldable pub has_id : ℕ → List ℕ → Bool
has_id u [] = false
has_id u (v ∷ s) = v == u || has_id u s

-- A method of the game that a room holds.
abbrev pub self_of :
    {A : Type 0} → Option Simon → (Simon → Run (World Simon) A) → Run (World Simon) A
self_of none f w = undefined
self_of (some g) f w = f g w

abbrev pub self : {A : Type 0} → (Simon → Run (World Simon) A) → Run (World Simon) A
self f w = self_of w.room.game f w

-- An assignment to the fields.
abbrev pub become : Simon → Run (World Simon) (Unit {0})
become g w = ok tt (on_room (λ r. record r { game = some g }) w)

abbrev pub say : Text → Run (World Simon) (Unit {0})
say t w = ok tt (broadcast_message t w)

abbrev pub say_all : List Text → Run (World Simon) (Unit {0})
say_all [] = pure tt
say_all (t ∷ ts) = do say t; say_all ts

-- `room->find_player(u)->name()`.
abbrev pub name_at : Option MemberPtr → Run (World Simon) Text
name_at none w = undefined
name_at (some p) w = ok (w.users p.id).name w

unfoldable pub player_name : ℕ → Run (World Simon) Text
unfolding find_player
player_name u w = name_at (find_player u w.room) w

unfoldable pub simon_name : Run (World Simon) Text
unfolding player_name
simon_name = self (λ g. player_name g.simon)

-- std::find_if over the players: one who is not Simon.
abbrev pub other_player : ℕ → List MemberPtr → Option MemberPtr
other_player u [] = none
other_player u (p ∷ ps) = if p.id == u then other_player u ps else some p

abbrev pub declare_winner : Option MemberPtr → Run (World Simon) (Unit {0})
declare_winner none w = undefined
declare_winner (some p) w = ok tt (
    let w' =
      broadcast_message (codes "[SIMON]: Game over! " ++ ((w.users p.id).name ++ codes " wins!"))
        w in
    record w' { users = Games.update_user p.id increment_wins w'.users })

unfoldable pub check_win : Run (World Simon) (Unit {0})
check_win w =
    (if active_player_count w.room == 1
        then (do
          name ← simon_name
          say (codes "[SIMON]: Game over! Nobody could keep up with " ++ name)
          Games.end_game)
        else if active_player_count w.room == 2
        then self (λ g. declare_winner (other_player g.simon w.room.cached_players))
        else pure tt)
      w

unfoldable pub disqualify_all : List ℕ → Run (World Simon) (Unit {0})
disqualify_all [] = pure tt
disqualify_all (u ∷ us) = do
  name ← player_name u
  say (codes "[SIMON]: " ++ (name ++ codes " is disqualified! They couldn't keep up."))
  modify (on_room (disqualify_player u))
  disqualify_all us

abbrev pub fail_incomplete : Simon → Run (World Simon) (Unit {0})
fail_incomplete g = do disqualify_all g.incomplete; check_win

unfoldable pub end_round : Run (World Simon) (Unit {0})
end_round = self fail_incomplete

-- The players but Simon.
abbrev pub others : ℕ → List MemberPtr → List ℕ
others u [] = []
others u (p ∷ ps) = let rest = others u ps in if p.id == u then rest else insert_id p.id rest

unfoldable pub next_round : Text → Run (World Simon) (Unit {0})
next_round message = self (λ g. do
  players ← gets (λ w. w.room.cached_players)
  become (record g { simon_message = message; incomplete = others g.simon players })
  name ← simon_name
  say (codes "[SIMON]: " ++ (name ++ (codes " says: " ++ message))))

unfoldable pub initialize_at : Option MemberPtr → Run (World Simon) (Unit {0})
initialize_at none = λ w. undefined
initialize_at (some o) = self (λ g. do
  become (record g { simon = o.id })
  say_all (
      codes "----------------------------------------------------------------------------"
      ∷ codes "Welcome to The Game of Simon!"
      ∷ codes "The rules are simple:"
      ∷ codes ""
      ∷ codes "One person is simon, and he or she says things."
      ∷ codes "The rest of you need to repeat what was said by Simon without making a typo."
      ∷ codes ""
      ∷ codes "Good luck!"
      ∷ codes "----------------------------------------------------------------------------"
      ∷ []))

unfoldable pub initialize : Run (World Simon) (Unit {0})
initialize w = initialize_at w.room.owner w

-- `trim` is boost's trim_copy.
module _ (trim : Text → Text) where
  abbrev pub answer : ℕ → Text → Simon → Run (World Simon) (Unit {0})
  answer u message g = if text_eq (trim message) g.simon_message then pure tt else (do
    name ← gets (λ w. (w.users u).name)
    say (codes "[SIMON]: " ++ (name ++ (codes " is disqualified! They said: " ++ message)))
    modify (on_room (disqualify_player u))
    check_win)

  -- The body of intercept_player_message, given the fields: Simon speaks, a player answers, or a player
  -- speaks out of turn.
  abbrev pub hear : ℕ → Text → Simon → Run (World Simon) Intercept
  hear u message g =
      if u == g.simon
      then (do
        end_round
        active ← gets (λ w. is_game_active w.room)
        if active then next_round (trim message) else pure tt
        pure intercepted)
      else if has_id u g.incomplete
      then (do
        answer u message g
        self (λ g'. become (record g' { incomplete = erase_id u g'.incomplete }))
        pure intercepted)
      else (do
        modify (send_to u (codes "If you want to speak in the Simon game, use /say"))
        pure intercepted)

  unfoldable pub intercept_player_message : ℕ → Text → Run (World Simon) Intercept
  intercept_player_message u message = self (hear u message)

unfoldable pub intercept_player_command : ℕ → Command → Run (World Simon) Intercept
intercept_player_command u d =
    if text_eq d.name (codes "say") || text_eq d.name (codes "s")
    then (do
      name ← gets (λ w. (w.users u).name)
      if text_eq d.raw_arguments [] then pure tt else say (name ++ (codes ": " ++ d.raw_arguments))
      pure intercepted)
    else pure default

-- The body of on_player_quit, given the fields.
abbrev pub quit : ℕ → Simon → Run (World Simon) (Unit {0})
quit u g =
    if u == g.simon
    then (do
      say (codes "Simon left during the game!")
      say (codes "The game is now cancelled.")
      Games.end_game)
    else pure tt

unfoldable pub on_player_quit : ℕ → Run (World Simon) (Unit {0})
on_player_quit u = self (quit u)

-- `room->owner()->send_system_message(...)`.
abbrev pub tell_owner : Option MemberPtr → Text → Run (World Simon) (Unit {0})
tell_owner none t w = undefined
tell_owner (some o) t w = ok tt (send_to o.id t w)

abbrev pub choose_simon :
    Text → Option MemberPtr → Option MemberPtr → Run (World Simon) (Option Text)
choose_simon value (some p) spectator w =
    (do
      self (λ g. become (record g { simon = p.id }))
      owner ← gets (λ w. w.room.owner)
      tell_owner owner (value ++ codes " is the new simon.")
      pure none)
      w
choose_simon value none (some p) w =
    ok (some (codes "Unable to set '" ++ (value ++ codes "' as simon. They are a spectator."))) w
choose_simon value none none w =
    ok (some (codes "Unable to set '" ++ (value ++ codes "' as simon. They aren't in the room."))) w

abbrev pub name_simon : Text → Option Text → Run (World Simon) (Option Text)
name_simon value none w = ok (some (codes "Unable to set '" ++ (value ++ codes "' as simon."))) w
name_simon value (some name) w =
    choose_simon value (find_player_named name w) (find_spectator_named name w) w

unfoldable pub on_option_change : Text → Text → Run (World Simon) (Option Text)
on_option_change option value =
    if text_eq option (codes "simon") then name_simon value (parse_nickname value) else pure none

-- The second test of `start`: without a Simon among the players, the owner becomes Simon.
abbrev pub require_simon : Option MemberPtr → Option MemberPtr → Run (World Simon) (Unit {0})
require_simon (some p) owner w = ok tt w
require_simon none none w = undefined
require_simon none (some o) w =
    (do
      self (λ g. become (record g { simon = o.id }))
      throw (
          game_exception (
            codes
              "The previous simon left. Either set a simon, or try again to use the room owner.")))
      w

unfoldable pub start : Run (World Simon) (Unit {0})
start = do
  n ← gets (λ w. player_count w.room)
  throw_if (ltb n 3) (game_exception (codes "This game requires at least three players."))
  self (λ g w. require_simon (find_player g.simon w.room) w.room.owner w)
  self (λ g. become (record g { simon_message = []; incomplete = [] }))
  name ← simon_name
  say (codes "[SIMON]: Simon is " ++ name)
  say (codes "[SIMON]: Good luck!")

-- The controller. A spectator's messages and commands take their default course
-- (module/game/src/DefaultController.cpp), and an update does nothing.
abbrev pub simon_game : (Text → Text) → Controller Simon
simon_game trim = record {
  initialize = initialize;
  intercept_player_message = intercept_player_message trim;
  intercept_player_command = intercept_player_command;
  intercept_spectator_message = λ u t. pure default;
  intercept_spectator_command = λ u d. pure default;
  on_player_quit = on_player_quit;
  on_option_change = on_option_change;
  list_option_descriptions = λ w. (codes "simon", codes "The player who is acting as Simon.") ∷ [];
  update = pure tt;
  start = start;
}
