-- ===== src/Game/Simon/Moving.antt =====
-- Steps of the game of Simon that move members between the cached sets only
-- (module/server_daemon/src/EXAMPLE_Simon.cpp).
use social_gaming_platform.Prelude.{
  ℕ, refl, Bool, true, false, Option, none, some, List, [], ◌∷◌, Text, if◌then◌else◌,
}
use social_gaming_platform.Run.{
  Run, Exception, Outcome, ok, threw, undefined, pure, throw_if, gets, modify, ◌>>=◌,
}
use social_gaming_platform.Run.Keeps.{HoldsOr, HoldsOr-chain}
use social_gaming_platform.Std.PtrSet.{MemberPtr}
use social_gaming_platform.Chat.Room.{Room, World, broadcast_message, send_to, find_player}
use social_gaming_platform.Chat.Room.Moves.{Moves, Moves-refl, Moves-trans}
use social_gaming_platform.Chat.Room.Games
use social_gaming_platform.Game.Simon.{
  Simon, self_of, self, become, say, say_all, name_at, player_name, simon_name, declare_winner,
}
use social_gaming_platform.Game.Simon.Play.{stopped-Moves}

-- Whether it returns or throws, the method moves members between the cached sets only.
pub record Moving {A : Type 0} (m : Run (World Simon) A) : Type 0 where
  pub at : (w : World Simon) → HoldsOr (Unit {0}) (λ w'. Moves w.room w'.room) (m w)

then-Moves :
    {A : Type 0} (r : Room Simon) (w : World Simon) (o : Outcome (World Simon) A)
    → Moves r w.room
    → HoldsOr (Unit {0}) (λ x. Moves w.room x.room) o
    → HoldsOr (Unit {0}) (λ x. Moves r x.room) o
then-Moves r w (ok b x) mv h = Moves-trans _ _ _ mv h
then-Moves r w (threw e x) mv h = Moves-trans _ _ _ mv h
then-Moves r w undefined mv h = tt

pub bind-Moving :
    {A B : Type 0} (m : Run (World Simon) A) (f : A → Run (World Simon) B)
    → Moving m
    → ((a : A) → Moving (f a))
    → Moving (m >>= f)
bind-Moving m f h k = record {
  at = λ w.
      HoldsOr-chain (Unit {0}) (m w) f (h.at w) (λ w' mv. mv)
        (λ a w' mv. then-Moves w.room w' (f a w') mv ((k a).at w'));
}

pub pure-Moving : {A : Type 0} (a : A) → Moving (pure a)
pure-Moving a = record { at = λ w. Moves-refl w.room }

pub gets-Moving : {A : Type 0} (f : World Simon → A) → Moving (gets f)
gets-Moving f = record { at = λ w. Moves-refl w.room }

pub if-Moving :
    {A : Type 0} (b : Bool) (m n : Run (World Simon) A)
    → Moving m
    → Moving n
    → Moving (if b then m else n)
if-Moving true m n h k = h
if-Moving false m n h k = k

pub throw_if-Moving : (b : Bool) (e : Exception) → Moving (throw_if b e)
throw_if-Moving true e = record { at = λ w. Moves-refl w.room }
throw_if-Moving false e = record { at = λ w. Moves-refl w.room }

-- A method that first looks at the world.
look-Moving :
    {A X : Type 0} (look : World Simon → X) (f : X → Run (World Simon) A)
    → ((x : X) → Moving (f x))
    → Moving (λ w. f (look w) w)
look-Moving look f h = record { at = λ w. (h (look w)).at w }

self_of-Moving :
    {A : Type 0} (f : Simon → Run (World Simon) A)
    → ((g : Simon) → Moving (f g))
    → (o : Option Simon) → Moving (self_of o f)
self_of-Moving f h none = record { at = λ w. tt }
self_of-Moving f h (some g) = h g

pub self-Moving :
    {A : Type 0} (f : Simon → Run (World Simon) A) → ((g : Simon) → Moving (f g)) → Moving (self f)
self-Moving f h = record { at = λ w. (self_of-Moving f h w.room.game).at w }

pub become-Moving : (g : Simon) → Moving (become g)
become-Moving g = record {
  at = λ w. record {
    owner = refl;
    player_limit = refl;
    spectator_limit = refl;
    present = λ u m e. (m, e, refl);
    absent = λ u e. e;
    inv = λ i. record {
      distinct = i.distinct;
      bounded = i.bounded;
      users_ok = i.users_ok;
      users_as_spectators_ok = i.users_as_spectators_ok;
      players_ok = i.players_ok;
      spectators_ok = i.spectators_ok;
      disqualified_ok = i.disqualified_ok;
    };
    playable = λ h b n. cc n;
  };
}

pub say-Moving : (t : Text) → Moving (say t)
unfolding broadcast_message
say-Moving t = record { at = λ w. Moves-refl w.room }

pub say_all-Moving : (ts : List Text) → Moving (say_all ts)
say_all-Moving [] = pure-Moving tt
say_all-Moving (t ∷ ts) = bind-Moving _ _ (say-Moving t) (λ _. say_all-Moving ts)

pub tell-Moving : (u : ℕ) (t : Text) → Moving (modify (send_to u t))
unfolding send_to
tell-Moving u t = record { at = λ w. Moves-refl w.room }

pub end_game-Moving : Moving Games.end_game
unfolding Games.end_game
end_game-Moving = record { at = λ w. stopped-Moves w.room w.room refl }

name_at-Moving : (o : Option MemberPtr) → Moving (name_at o)
name_at-Moving none = record { at = λ w. tt }
name_at-Moving (some p) = record { at = λ w. Moves-refl w.room }

pub player_name-Moving : (u : ℕ) → Moving (player_name u)
unfolding player_name
player_name-Moving u = record { at = λ w. (name_at-Moving (find_player u w.room)).at w }

pub simon_name-Moving : Moving simon_name
unfolding simon_name
simon_name-Moving = self-Moving _ (λ g. player_name-Moving g.simon)

pub declare_winner-Moving : (o : Option MemberPtr) → Moving (declare_winner o)
unfolding broadcast_message
declare_winner-Moving none = record { at = λ w. tt }
declare_winner-Moving (some p) = record { at = λ w. Moves-refl w.room }
