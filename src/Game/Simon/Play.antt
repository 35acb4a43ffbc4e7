-- ===== src/Game/Simon/Play.antt =====
-- What happens to a game of Simon when players leave or are too few
-- (module/server_daemon/src/EXAMPLE_Simon.cpp).
use social_gaming_platform.Prelude.{
  ℕ, ◌<◌, ◌≡◌, refl, Bool, true, false, none, some, List, ◌∷◌, Text, codes, ◌==◌, ==_iff, ltb,
  if◌then◌else◌, arith, ap, ◌∙◌, sym, inl, inr, Option-cases, Bool-cases,
}
use mathlib.Core.Path.{subst}
use social_gaming_platform.Run.{
  Run, Exception, Outcome, ok, threw, undefined, continue, pure, throw_if, ◌>>◌, game_exception,
}
use social_gaming_platform.Game.Controller.{QuitsCleanly}
use social_gaming_platform.Chat.Room.{
  Room, World, on_room, broadcast_message, find_player, player_count, is_game_active,
  is_game_loaded,
}
use social_gaming_platform.Chat.Room.Good.{Good}
use social_gaming_platform.Chat.Room.Invariant.{Inv}
use social_gaming_platform.Chat.Room.Resets.{reset_players_lem}
use social_gaming_platform.Chat.Room.Moves.{Moves, Moves-refl, reset_players-Moves}
use social_gaming_platform.Chat.Room.Waitlist.{reset_players}
use social_gaming_platform.Chat.Room.Games
use social_gaming_platform.Chat.Room.Play.{started, start_game_lem}
use social_gaming_platform.Game.Simon.{
  Simon, self_of, say, name_at, player_name, disqualify_all, end_round, intercept_player_message,
  on_player_quit, quit, hear, fail_incomplete, simon_game, start, check_win,
}

module _ {G : Type 0} where
  broadcast_room : (t : Text) (w : World G) → (broadcast_message t w).room ≡ w.room
  unfolding broadcast_message
  broadcast_room t w = refl

  pub stopped-Moves :
      (r r' : Room G) → r' ≡ r → Moves r (record (reset_players r') { game_started = false })
  stopped-Moves r r' e =
      let mv : Moves r (reset_players r') =
        subst (λ x. Moves r (reset_players x)) (sym e) (reset_players-Moves r) in
      record {
        owner = mv.owner;
        player_limit = mv.player_limit;
        spectator_limit = mv.spectator_limit;
        present = mv.present;
        absent = mv.absent;
        inv = λ v.
            let i = mv.inv v in
            record {
              distinct = i.distinct;
              bounded = i.bounded;
              users_ok = i.users_ok;
              users_as_spectators_ok = i.users_as_spectators_ok;
              players_ok = i.players_ok;
              spectators_ok = i.spectators_ok;
              disqualified_ok = i.disqualified_ok;
            };
        playable = λ h p. cc;
      }

-- The world after Simon has left.
abbrev cancelled : World Simon → World Simon
cancelled w =
    let w' =
      broadcast_message (codes "The game is now cancelled.")
        (broadcast_message (codes "Simon left during the game!") w) in
    on_room (λ r. record (reset_players r) { game_started = false }) w'

cancelled_room :
    (w : World Simon) → (cancelled w).room ≡ record (reset_players w.room) { game_started = false }
cancelled_room w =
    ap (λ r. record (reset_players r) { game_started = false })
      (broadcast_room _ (broadcast_message (codes "Simon left during the game!") w)
        ∙ broadcast_room _ w)

quit_runs :
    (u : ℕ) (g : Simon) (w : World Simon)
    → w.room.game ≡ some g
    → on_player_quit u w ≡ (if u == g.simon then ok tt (cancelled w) else ok tt w)
unfolding on_player_quit Games.end_game
quit_runs u g w e = ap (λ o. self_of o (quit u) w) e ∙ by_test (u == g.simon)
  where
    by_test :
        (b : Bool)
        → (if b
              then say (codes "Simon left during the game!")
                >> say (codes "The game is now cancelled.")
                >> Games.end_game
              else pure tt)
            w
          ≡ (if b then ok tt (cancelled w) else ok tt w)
    by_test true = refl
    by_test false = refl

-- What quitting leaves of the room.
abbrev pub after_quit : Bool → Room Simon → Room Simon
after_quit simon_left r =
    if simon_left then record (reset_players r) { game_started = false } else r

quit_moves :
    (u : ℕ) (g : Simon) (w : World Simon)
    → w.room.game ≡ some g
    → (w' : World Simon) × (on_player_quit u w ≡ ok tt w')
      × (w'.room ≡ after_quit (u == g.simon) w.room)
      × Moves w.room w'.room
quit_moves u g w e = elim (Bool-cases (u == g.simon)) [
  | inl hit ↦ (
    cancelled w,
    quit_runs u g w e ∙ ap (λ b. if b then ok tt (cancelled w) else ok tt w) hit,
    rw hit (cancelled_room w),
    stopped-Moves w.room _ (
        broadcast_room _ (broadcast_message (codes "Simon left during the game!") w)
        ∙ broadcast_room _ w),
  )
  | inr miss ↦ (
    w,
    quit_runs u g w e ∙ ap (λ b. if b then ok tt (cancelled w) else ok tt w) miss,
    rw miss refl,
    Moves-refl w.room,
  )
]

nobody_out :
    (b : Bool) (r : Room Simon)
    → Inv r
    → (after_quit b r).players_disqualified ≡ (if b then 0 else r.players_disqualified)
nobody_out true r v = (reset_players_lem r v).1
nobody_out false r v = refl

-- A player who quits a game of Simon, in a room whose bookkeeping is right, quits without a throw. If
-- the player was Simon, the game is over and the players are reset, so that nobody is disqualified any
-- more; otherwise the room is as it was. Nobody joins or leaves the room by it.
pub on_player_quit_lem :
    (u : ℕ) (g : Simon) (w : World Simon)
    → w.room.game ≡ some g
    → Inv w.room
    → (w' : World Simon) × (on_player_quit u w ≡ ok tt w')
      × (w'.room ≡ after_quit (u == g.simon) w.room)
      × (w'.room.players_disqualified ≡ (if u == g.simon then 0 else w.room.players_disqualified))
      × Moves w.room w'.room
on_player_quit_lem u g w e v =
    let (w', runs, left, mv) = quit_moves u g w e in
    (w', runs, left, ap (λ r. r.players_disqualified) left ∙ nobody_out (u == g.simon) w.room v, mv)

-- The game of Simon takes the quitting of any player without a throw, as the room expects of a game.
pub simon_game-QuitsCleanly : (trim : Text → Text) → QuitsCleanly (simon_game trim)
simon_game-QuitsCleanly trim = record {
  at = λ u w there. elim (Option-cases w.room.game) [
    | inl n ↦ absurd (there n)
    | inr (g, e) ↦ let (w', runs, left, mv) = quit_moves u g w e in (w', runs, mv)
  ];
}

stuck :
    {W A B : Type 0} (o : Outcome W A) (f : A → Run W B) → o ≡ undefined → continue o f ≡ undefined
stuck o f e = ap (λ x. continue x f) e

thrown :
    {W B : Type 0} (b : Bool) (e : Exception) (f : Unit {0} → Run W B) (w : W)
    → b ≡ true
    → continue (throw_if b e w) f ≡ threw e w
thrown true e f w h = refl
thrown false e f w h = cc

missing_player :
    (u : ℕ) (w : World Simon) → find_player u w.room ≡ none → player_name u w ≡ undefined
unfolding player_name
missing_player u w e = ap (λ o. name_at o w) e

disqualify_all-undefined :
    (u : ℕ) (us : List ℕ) (w : World Simon)
    → find_player u w.room ≡ none
    → disqualify_all (u ∷ us) w ≡ undefined
unfolding disqualify_all
disqualify_all-undefined u us w e = stuck _ _ (missing_player u w e)

fail_incomplete-undefined :
    (g : Simon) (us : List ℕ) (u : ℕ) (w : World Simon)
    → g.incomplete ≡ u ∷ us
    → find_player u w.room ≡ none
    → fail_incomplete g w ≡ undefined
fail_incomplete-undefined g us u w e gone =
    ap (λ l. continue (disqualify_all l w) (λ _. check_win)) e
    ∙ ap (λ o. continue o (λ _. check_win)) (disqualify_all-undefined u us w gone)

end_round-undefined :
    (g : Simon) (us : List ℕ) (u : ℕ) (w : World Simon)
    → w.room.game ≡ some g
    → g.incomplete ≡ u ∷ us
    → find_player u w.room ≡ none
    → end_round w ≡ undefined
unfolding end_round
end_round-undefined g us u w e i gone =
    ap (λ o. self_of o fail_incomplete w) e ∙ fail_incomplete-undefined g us u w i gone

hear_simon :
    (trim : Text → Text) (t : Text) (g : Simon) (w : World Simon)
    → end_round w ≡ undefined
    → (b : Bool) → (g.simon == g.simon) ≡ b
    → b ≡ true
    → hear trim g.simon t g w ≡ undefined
hear_simon trim t g w stuck b e h = rw (e, h, stuck) refl

-- The first player that a round waits for is looked up without a test: where that player is no active
-- player any more, the next message of Simon follows a null pointer.
pub lagging_player-undefined :
    (trim : Text → Text) (t : Text) (g : Simon) (us : List ℕ) (u : ℕ) (w : World Simon)
    → w.room.game ≡ some g
    → g.incomplete ≡ u ∷ us
    → find_player u w.room ≡ none
    → intercept_player_message trim g.simon t w ≡ undefined
unfolding intercept_player_message
lagging_player-undefined trim t g us u w e i gone =
    ap (λ o. self_of o (hear trim g.simon t) w) e
    ∙ hear_simon trim t g w (end_round-undefined g us u w e i gone) true
        ((==_iff g.simon g.simon).1 refl) refl

too_few :
    (w : World Simon)
    → player_count w.room < 3
    → start w ≡ threw (game_exception (codes "This game requires at least three players.")) w
unfolding start
too_few w few = thrown (ltb (player_count w.room) 3) _ _ w (ground (arith, few))

-- Starting a game of Simon with fewer than three players, in a well-formed room, throws, and leaves the
-- room with the game on.
pub start_game-few :
    (trim : Text → Text) (w : World Simon)
    → is_game_loaded w.room ≡ true
    → Good w.room
    → player_count (started w).room < 3
    → (Games.start_game (simon_game trim) w
        ≡ threw (game_exception (codes "This game requires at least three players.")) (started w))
      × (is_game_active (started w).room ≡ true)
start_game-few trim w loaded g few =
    let (runs, good, nobody_out, on) = start_game_lem (simon_game trim) w loaded g in
    (runs ∙ too_few (started w) few, on)
