-- ===== src/Game/Simon/Confined.antt =====
-- The game of Simon reaches its room through the environment alone
-- (module/server_daemon/src/EXAMPLE_Simon.cpp).
use social_gaming_platform.Prelude.{
  ℕ, ◌==◌, ltb, ◌||◌, Option, none, some, List, [], ◌∷◌, ◌++◌, Text, codes, text_eq,
}
use social_gaming_platform.Run.{Exception, modify, ◌>>=◌, ◌>>◌, game_exception}
use social_gaming_platform.Std.PtrSet.{MemberPtr}
use social_gaming_platform.Command.{Command}
use social_gaming_platform.Chat.User.{parse_nickname}
use social_gaming_platform.Game.Controller.{IsConfined, intercepted, default}
use social_gaming_platform.Chat.Room.{
  on_room, send_to, find_player, find_player_named, find_spectator_named, player_count,
  active_player_count, is_game_active,
}
use social_gaming_platform.Chat.Room.Moves.{Moves-refl, disqualify_player-Moves}
use social_gaming_platform.Chat.Room.Waitlist.{disqualify_player}
use social_gaming_platform.Chat.Room.Games
use social_gaming_platform.Game.Simon.{
  Simon, say, simon_name, other_player, declare_winner, check_win, disqualify_all, fail_incomplete,
  end_round, next_round, initialize_at, initialize, answer, hear, quit, tell_owner, choose_simon,
  name_simon, require_simon, simon_game, has_id, start, on_option_change, on_player_quit,
  intercept_player_message, intercept_player_command,
}
use social_gaming_platform.Game.Simon.Moving.{
  Moving, bind-Moving, pure-Moving, gets-Moving, if-Moving, throw_if-Moving, self-Moving,
  become-Moving, say-Moving, say_all-Moving, tell-Moving, end_game-Moving, player_name-Moving,
  simon_name-Moving, declare_winner-Moving,
}

announce_end : Moving (
    simon_name >>= λ name.
    say (codes "[SIMON]: Game over! Nobody could keep up with " ++ name) >> Games.end_game)
announce_end =
    bind-Moving _ _ simon_name-Moving
      (λ name. bind-Moving _ _ (say-Moving _) (λ _. end_game-Moving))

check_win-Moving : Moving check_win
unfolding check_win
check_win-Moving = record {
  at = λ w.
      (if-Moving (active_player_count w.room == 1) _ _ announce_end (
          if-Moving (active_player_count w.room == 2) _ _
            (self-Moving (λ g. declare_winner (other_player g.simon w.room.cached_players))
              (λ g. declare_winner-Moving (other_player g.simon w.room.cached_players)))
            (pure-Moving tt))).at
        w;
}

disqualify-Moving : (u : ℕ) → Moving (modify (on_room (disqualify_player u)))
disqualify-Moving u = record { at = λ w. disqualify_player-Moves u w.room }

disqualify_all-Moving : (us : List ℕ) → Moving (disqualify_all us)
unfolding disqualify_all
disqualify_all-Moving [] = pure-Moving tt
disqualify_all-Moving (u ∷ us) = bind-Moving _ _ (player_name-Moving u) (λ name.
    bind-Moving _ _ (say-Moving _)
      (λ _. bind-Moving _ _ (disqualify-Moving u) (λ _. disqualify_all-Moving us)))

end_round-Moving : Moving end_round
unfolding end_round
end_round-Moving =
    self-Moving fail_incomplete
      (λ g. bind-Moving _ _ (disqualify_all-Moving g.incomplete) (λ _. check_win-Moving))

next_round-Moving : (t : Text) → Moving (next_round t)
unfolding next_round
next_round-Moving t = self-Moving _ (λ g.
    bind-Moving _ _ (gets-Moving (λ w. w.room.cached_players)) (λ players.
      bind-Moving _ _ (become-Moving _) (λ _.
        bind-Moving _ _ simon_name-Moving
          (λ name. say-Moving (codes "[SIMON]: " ++ (name ++ (codes " says: " ++ t)))))))

abbrev welcome : List Text
welcome =
    codes "----------------------------------------------------------------------------"
    ∷ codes "Welcome to The Game of Simon!"
    ∷ codes "The rules are simple:"
    ∷ codes ""
    ∷ codes "One person is simon, and he or she says things."
    ∷ codes "The rest of you need to repeat what was said by Simon without making a typo."
    ∷ codes ""
    ∷ codes "Good luck!"
    ∷ codes "----------------------------------------------------------------------------"
    ∷ []

initialize_at-Moving : (o : Option MemberPtr) → Moving (initialize_at o)
unfolding initialize_at
initialize_at-Moving none = record { at = λ w. tt }
initialize_at-Moving (some o) =
    self-Moving _ (λ g.
      bind-Moving _ _ (become-Moving (record g { simon = o.id })) (λ _. say_all-Moving welcome))

module _ (trim : Text → Text) where
  answer-Moving : (u : ℕ) (t : Text) (g : Simon) → Moving (answer trim u t g)
  answer-Moving u t g = if-Moving (text_eq (trim t) g.simon_message) _ _ (pure-Moving tt) (
      bind-Moving _ _ (gets-Moving (λ w. (w.users u).name)) (λ name.
        bind-Moving _ _
          (say-Moving (codes "[SIMON]: " ++ (name ++ (codes " is disqualified! They said: " ++ t))))
          (λ _. bind-Moving _ _ (disqualify-Moving u) (λ _. check_win-Moving))))

  hear-Moving : (u : ℕ) (t : Text) (g : Simon) → Moving (hear trim u t g)
  hear-Moving u t g =
      if-Moving (u == g.simon) _ _
        (bind-Moving _ _ end_round-Moving (λ _.
          bind-Moving _ _ (gets-Moving (λ w. is_game_active w.room)) (λ active.
            bind-Moving _ _ (if-Moving active _ _ (next_round-Moving (trim t)) (pure-Moving tt))
              (λ _. pure-Moving intercepted))))
        (if-Moving (has_id u g.incomplete) _ _
          (bind-Moving _ _ (answer-Moving u t g) (λ _.
            bind-Moving _ _ (self-Moving _ (λ g'. become-Moving _)) (λ _. pure-Moving intercepted)))
          (bind-Moving _ _ (tell-Moving u _) (λ _. pure-Moving intercepted)))

command-Moving : (u : ℕ) (d : Command) → Moving (intercept_player_command u d)
unfolding intercept_player_command
command-Moving u d =
    if-Moving (text_eq d.name (codes "say") || text_eq d.name (codes "s")) _ _
      (bind-Moving _ _ (gets-Moving (λ w. (w.users u).name)) (λ name.
        bind-Moving _ _
          (if-Moving (text_eq d.raw_arguments []) _ _ (pure-Moving tt)
            (say-Moving (name ++ (codes ": " ++ d.raw_arguments))))
          (λ _. pure-Moving intercepted)))
      (pure-Moving default)

quit-Moving : (u : ℕ) (g : Simon) → Moving (quit u g)
quit-Moving u g =
    if-Moving (u == g.simon) _ _
      (bind-Moving _ _ (say-Moving (codes "Simon left during the game!")) (λ _.
        bind-Moving _ _ (say-Moving (codes "The game is now cancelled.")) (λ _. end_game-Moving)))
      (pure-Moving tt)

tell_owner-Moving : (o : Option MemberPtr) (t : Text) → Moving (tell_owner o t)
unfolding send_to
tell_owner-Moving none t = record { at = λ w. tt }
tell_owner-Moving (some o) t = record { at = λ w. Moves-refl w.room }

choose_simon-Moving : (value : Text) (p q : Option MemberPtr) → Moving (choose_simon value p q)
choose_simon-Moving value (some p) q = bind-Moving _ _ (self-Moving _ (λ g. become-Moving _)) (λ _.
    bind-Moving _ _ (gets-Moving (λ w. w.room.owner))
      (λ owner. bind-Moving _ _ (tell_owner-Moving owner _) (λ _. pure-Moving none)))
choose_simon-Moving value none (some p) = pure-Moving _
choose_simon-Moving value none none = pure-Moving _

name_simon-Moving : (value : Text) (o : Option Text) → Moving (name_simon value o)
name_simon-Moving value none = pure-Moving _
name_simon-Moving value (some name) = record {
  at = λ w.
      (choose_simon-Moving value (find_player_named name w) (find_spectator_named name w)).at w;
}

option-Moving : (k v : Text) → Moving (on_option_change k v)
unfolding on_option_change
option-Moving k v =
    if-Moving (text_eq k (codes "simon")) _ _ (name_simon-Moving v (parse_nickname v))
      (pure-Moving none)

require_simon-Moving : (p o : Option MemberPtr) → Moving (require_simon p o)
require_simon-Moving (some p) o = record { at = λ w. Moves-refl w.room }
require_simon-Moving none none = record { at = λ w. tt }
require_simon-Moving none (some o) =
    bind-Moving _ _ (self-Moving _ (λ g. become-Moving _))
      (λ _. record { at = λ w. Moves-refl w.room })

abbrev too_few_players : Exception
too_few_players = game_exception (codes "This game requires at least three players.")

start-Moving : Moving start
unfolding start
start-Moving = bind-Moving _ _ (gets-Moving (λ w. player_count w.room)) (λ n.
    bind-Moving _ _ (throw_if-Moving (ltb n 3) too_few_players) (λ _.
      bind-Moving _ _
        (self-Moving (λ g w. require_simon (find_player g.simon w.room) w.room.owner w)
          (λ g. record {
            at = λ w. (require_simon-Moving (find_player g.simon w.room) w.room.owner).at w;
          }))
        (λ _.
          bind-Moving _ _
            (self-Moving _ (λ g. become-Moving (record g { simon_message = []; incomplete = [] })))
            (λ _. bind-Moving _ _ simon_name-Moving (λ name.
              bind-Moving _ _ (say-Moving (codes "[SIMON]: Simon is " ++ name))
                (λ _. say-Moving (codes "[SIMON]: Good luck!")))))))

-- Simon meets what the theorems about rooms ask of a game; it may follow null pointers of its own.
pub simon_game-IsConfined : (trim : Text → Text) → IsConfined (Unit {0}) (simon_game trim)
unfolding initialize intercept_player_message on_player_quit
simon_game-IsConfined trim = record {
  initialize = λ w. (initialize_at-Moving w.room.owner).at w;
  intercept_player_message = λ u t w. (self-Moving _ (hear-Moving trim u t)).at w;
  intercept_player_command = λ u d w. (command-Moving u d).at w;
  intercept_spectator_message = λ u t w. Moves-refl w.room;
  intercept_spectator_command = λ u d w. Moves-refl w.room;
  on_player_quit = λ u w. (self-Moving _ (quit-Moving u)).at w;
  on_option_change = λ k v w. (option-Moving k v).at w;
  update = λ w. Moves-refl w.room;
  start = λ w. start-Moving.at w;
}
