-- ===== src/Chat/Room/GameKept.antt =====
-- What a game finds and leaves in a well-formed room (module/chat/src/Room.cpp): a call of a game that
-- is there, a new game, and a game that ends.
use social_gaming_platform.Prelude.{
  ◌≡◌, refl, ◌≢◌, Bool, true, false, Option, none, some, sym, inl, inr, Option-cases, Text,
}
use mathlib.Core.Path.{subst}
use social_gaming_platform.Run.{Run, Outcome, ok, threw, undefined}
use social_gaming_platform.Run.Keeps.{HoldsOr}
use social_gaming_platform.Chat.Room.{
  Room, World, is_game_active, is_game_loaded, broadcast_message,
}
use social_gaming_platform.Chat.Room.Membership.{call_game}
use social_gaming_platform.Chat.Room.Good.{Good, Moves-Good}
use social_gaming_platform.Chat.Room.Invariant.{Inv}
use social_gaming_platform.Chat.Room.Moves.{Moves, Playable, reset_players-Moves}
use social_gaming_platform.Chat.Room.Waitlist.{reset_players}
use social_gaming_platform.Chat.Room.Games

read_some :
    {A B : Type 0} (o : Option A) (x y : B) → o ≢ none → (elim o [ none ↦ x | some g ↦ y ]) ≡ y
read_some none x y h = absurd (h refl)
read_some (some g) x y h = refl

-- The bookkeeping and the owner do not look at the game.
module _ {G : Type 0} where
  with_game :
      (r : Room G) (g : Option G) (b : Bool) → Inv r → Inv (record r { game = g; game_started = b })
  with_game r g b v = record {
    distinct = v.distinct;
    bounded = v.bounded;
    users_ok = v.users_ok;
    users_as_spectators_ok = v.users_as_spectators_ok;
    players_ok = v.players_ok;
    spectators_ok = v.spectators_ok;
    disqualified_ok = v.disqualified_ok;
  }

  pub set_game-Good :
      (r : Room G) (g : Option G) (b : Bool)
      → (b ≡ true → g ≢ none)
      → Good r
      → Good (record r { game = g; game_started = b })
  set_game-Good r g b p h = record { inv = with_game r g b h.inv; owned = h.owned; playable = p }

  -- A call of a game that is there.
  pub call_game_there :
      {A : Type 0} (D : Type 0) (P : World G → Type 0) (op : Run (World G) A) (w : World G)
      → w.room.game ≢ none
      → HoldsOr D P (op w)
      → HoldsOr D P (call_game op w)
  unfolding call_game
  call_game_there D P op w there h = elim (Option-cases w.room.game) [
    | inl n ↦ absurd (there n)
    | inr (g, s) ↦ rw (s, call_game) h
  ]

  pub call_game_eq :
      {A : Type 0} (op : Run (World G) A) (w : World G)
      → Playable w.room
      → w.room.game_started ≡ true
      → call_game op w ≡ op w
  unfolding call_game
  call_game_eq op w p b = read_some w.room.game undefined (op w) (p b)

  abbrev pub Kept : World G → Type 0
  Kept w = Good w.room

  pub confined-Good :
      {A : Type 0} (D : Type 0) (o : Outcome (World G) A) (r : Room G)
      → Good r
      → HoldsOr D (λ w'. Moves r w'.room) o
      → HoldsOr D Kept o
  confined-Good D (ok a w) r g h = Moves-Good h g
  confined-Good D (threw e w) r g h = Moves-Good h g
  confined-Good D undefined r g h = h

  pub end_game-Kept : (D : Type 0) (w : World G) → Kept w → HoldsOr D Kept (Games.end_game w)
  unfolding Games.end_game
  end_game-Kept D w g =
      let g' : Good (reset_players w.room) = Moves-Good (reset_players-Moves w.room) g in
      set_game-Good (reset_players w.room) (reset_players w.room).game false (λ h. cc) g'

  pub loaded_there : (r : Room G) → is_game_loaded r ≡ true → r.game ≢ none
  unfolding is_game_loaded
  loaded_there r h n =
      subst (λ o. (elim o [ none ↦ false | some g ↦ true ]) ≡ true → ⊥) (sym n) (λ k. cc) h

  pub active_there : (r : Room G) → Good r → is_game_active r ≡ true → r.game ≢ none
  unfolding is_game_active
  active_there r g e = g.playable e

  pub broadcast-Kept : (t : Text) (w : World G) → Kept w → Kept (broadcast_message t w)
  unfolding broadcast_message
  broadcast-Kept t w g = g
