-- ===== src/Chat/Room/Play.antt =====
-- The methods that run a game keep a room well formed (module/chat/src/Room.cpp), and what a game that
-- starts finds.
use social_gaming_platform.Prelude.{
  ℕ, ◌≡◌, refl, ◌≢◌, Bool, true, false, not, ◌&&◌, none, some, arith, sym, inl, inr, Option-cases,
  Bool-cases, if◌then◌else◌, Text,
}
use mathlib.Core.Path.{subst}
use social_gaming_platform.Run.Keeps.{HoldsOr, HoldsOr-continue, HoldsOr-chain}
use social_gaming_platform.Chat.Member.{Member, is_player, is_disqualified}
use social_gaming_platform.Chat.Member.Map
use social_gaming_platform.Game.Controller.{Controller, Intercept, intercepted, default, IsConfined}
use social_gaming_platform.Chat.Room.{World, on_room, is_game_active, is_game_loaded}
use social_gaming_platform.Chat.Room.Good.{Good, Moves-Good}
use social_gaming_platform.Chat.Room.Moves.{Moves, Moves-refl, reset_players-Moves}
use social_gaming_platform.Chat.Room.Waitlist.{reset_players}
use social_gaming_platform.Chat.Room.Resets.{reset_players_lem, reset_players-game}
use social_gaming_platform.Chat.Room.Games
use social_gaming_platform.Chat.Room.GameKept.{
  Kept, set_game-Good, call_game_there, call_game_eq, confined-Good, end_game-Kept, loaded_there,
  active_there, broadcast-Kept,
}

module _ {G : Type 0} where
  -- The world in which the game's `start` is called.
  abbrev pub started : World G → World G
  started w = record w {
    room = record (reset_players w.room) { game_started = true };
    users = Games.award_all (reset_players w.room).cached_players w.users;
  }

  start_Kept : (w : World G) → is_game_loaded w.room ≡ true → Kept w → Kept (started w)
  start_Kept w e g =
      let g' : Good (reset_players w.room) = Moves-Good (reset_players-Moves w.room) g in
      let there : (reset_players w.room).game ≢ none =
        rw (reset_players-game w.room) (loaded_there w.room e) in
      set_game-Good (reset_players w.room) (reset_players w.room).game true (λ h. there) g'

module _ {G : Type 0} (c : Controller G) where
  -- Starting a loaded game in a well-formed room comes to the game's `start` in a room that is well
  -- formed, where the game is already on and nobody is disqualified.
  pub start_game_lem :
      (w : World G)
      → is_game_loaded w.room ≡ true
      → Good w.room
      → (Games.start_game c w ≡ c.start (started w))
        × Good (started w).room
        × ((started w).room.players_disqualified ≡ 0)
        × (is_game_active (started w).room ≡ true)
  unfolding Games.start_game is_game_active
  start_game_lem w e g = (
    rw e (call_game_eq c.start (started w) (start_Kept w e g).playable refl),
    start_Kept w e g,
    (reset_players_lem w.room g.inv).1,
    refl,
  )

module _ {G : Type 0} (D : Type 0) (c : Controller G) (quiet : IsConfined D c) where
  update_game-Kept : (w : World G) → Kept w → HoldsOr D Kept (Games.update_game c w)
  unfolding Games.update_game
  update_game-Kept w g = elim (Bool-cases (is_game_active w.room)) [
    | inl e ↦ rw e (
        call_game_there D Kept c.update w (active_there w.room g e)
          (confined-Good D _ w.room g (quiet.update w)))
    | inr e ↦ rw e g
  ]

  initialize-Kept :
      (s : G) (w : World G)
      → Kept w
      → HoldsOr D Kept (c.initialize (on_room (λ r. record r { game = some s }) w))
  initialize-Kept s w g =
      let w' : World G = on_room (λ r. record r { game = some s }) w in
      confined-Good D _ w'.room (set_game-Good w.room (some s) w.room.game_started (λ h. λ n. cc) g)
        (quiet.initialize w')

  load_game-Kept : (s : G) (w : World G) → Kept w → HoldsOr D Kept (Games.load_game c s w)
  unfolding Games.load_game
  load_game-Kept s w g = elim (Bool-cases (is_game_loaded w.room && is_game_active w.room)) [
    | inl e ↦ rw e (
        HoldsOr-continue D (Games.end_game w) _ (end_game-Kept D w g)
          (λ _. record { at = λ w' g'. initialize-Kept s w' g' }))
    | inr e ↦ rw e (initialize-Kept s w g)
  ]

  game_option-Kept :
      (k v : Text) (w : World G) → Kept w → HoldsOr D Kept (Games.game_option c k v w)
  unfolding Games.game_option
  game_option-Kept k v w g = elim (Bool-cases (is_game_loaded w.room)) [
    | inl e ↦ rw e (
        call_game_there D Kept (c.on_option_change k v) w (loaded_there w.room e)
          (confined-Good D _ w.room g (quiet.on_option_change k v w)))
    | inr e ↦ rw e g
  ]

  -- What is left of process_message, in the world after the game was asked.
  deliver-Kept :
      (u : ℕ) (m : Member) (t : Text) (i : Intercept) (w : World G)
      → Map.find u w.room.members ≡ some m
      → Kept w
      → HoldsOr D Kept (Games.deliver c u t i w)
  unfolding Games.deliver
  deliver-Kept u m t intercepted w e g = g
  deliver-Kept u m t default w e g =
      rw (e, Games.deliver) (broadcast-Kept (Games.outbound c m t w) w g)

  asked :
      (m : Member) (t : Text) (w : World G)
      → Kept w
      → HoldsOr D (λ w'. Moves w.room w'.room) (Games.intercept_message c m t w)
  unfolding Games.intercept_message
  asked m t w g = elim (Bool-cases (is_game_active w.room && is_player m)) [
    | inl e ↦ rw e (
        call_game_there D _ _ w (active_there w.room g (ground arith))
          (by_status (is_player m && not (is_disqualified m))))
    | inr e ↦ rw e (Moves-refl w.room)
  ]
    where
      by_status :
          (b : Bool)
          → HoldsOr D
              (λ w'. Moves w.room w'.room)
              ((if b
                  then c.intercept_player_message m.user t
                  else c.intercept_spectator_message m.user t)
                w)
      by_status true = quiet.intercept_player_message m.user t w
      by_status false = quiet.intercept_spectator_message m.user t w

  process_message-Kept :
      (u : ℕ) (t : Text) (w : World G) → Kept w → HoldsOr D Kept (Games.process_message c u t w)
  unfolding Games.process_message
  process_message-Kept u t w g = elim (Option-cases (Map.find u w.room.members)) [
    | inl e ↦ rw (e, Games.process_message) g
    | inr (m, e) ↦
        rw (e, Games.process_message)
          (HoldsOr-chain D (Games.intercept_message c m t w) _ (asked m t w g)
            (λ w' mv. Moves-Good mv g)
            (λ i w' mv.
              let (m', e', s) = mv.present u m e in deliver-Kept u m' t i w' e' (Moves-Good mv g)))
  ]

  start_game-refused :
      (w : World G) → Kept w → is_game_loaded w.room ≡ false → HoldsOr D Kept (Games.start_game c w)
  unfolding Games.start_game
  start_game-refused w g e = rw e g

  start_game-Kept : (w : World G) → Kept w → HoldsOr D Kept (Games.start_game c w)
  start_game-Kept w g = elim (Bool-cases (is_game_loaded w.room)) [
    | inl e ↦
        subst (HoldsOr D Kept) (sym (start_game_lem c w e g).0)
          (confined-Good D _ (started w).room (start_Kept w e g) (quiet.start (started w)))
    | inr e ↦ start_game-refused w g e
  ]

  -- Starting, updating, loading and ending a game, setting an option of it and sending a message keep a
  -- room well formed, whether they return or throw, if the game reaches the room through its environment
  -- alone. They do nothing undefined of their own: where one of them is undefined, the game was.
  pub game_methods-Good :
      (w : World G) (s : G) (u : ℕ) (key value text : Text)
      → Good w.room
      → HoldsOr D (λ w'. Good w'.room) (Games.start_game c w)
        × HoldsOr D (λ w'. Good w'.room) (Games.update_game c w)
        × HoldsOr D (λ w'. Good w'.room) (Games.load_game c s w)
        × HoldsOr D (λ w'. Good w'.room) (Games.end_game w)
        × HoldsOr D (λ w'. Good w'.room) (Games.game_option c key value w)
        × HoldsOr D (λ w'. Good w'.room) (Games.process_message c u text w)
  game_methods-Good w s u key value text g = (
    start_game-Kept w g,
    update_game-Kept w g,
    load_game-Kept s w g,
    end_game-Kept D w g,
    game_option-Kept key value w g,
    process_message-Kept u text w g,
  )
