-- ===== src/Chat/Room/Membership.antt =====
-- Room::set_owner (module/chat/include/Room.hpp), Room::add_user and Room::_remove_user
-- (module/chat/src/Room.cpp).
use social_gaming_platform.Prelude.{
  ℕ, ◌+◌, ◌-◌, ◌%◌, Bool, true, false, ◌||◌, Option, none, some, List, [], ◌∷◌, ltb, ◌==◌,
  if◌then◌else◌, ◌≡◌,
}
use social_gaming_platform.Run.{
  Run, Exception, Outcome, ok, threw, undefined, pure, throw, modify, ◌>>=◌, ◌>>◌, chat_exception,
  user_not_found, room_full, not_allowed_during_game,
}
use social_gaming_platform.Std.PtrSet.{MemberPtr}
use social_gaming_platform.Chat.Member.{
  Member, Status, player, spectator, is_player, is_disqualified, ptr,
}
use social_gaming_platform.Chat.Member.Map
use social_gaming_platform.Chat.Room.{
  Room, World, on_room, size_mod, is_game_active, player_count, spectator_count, find_player,
  find_spectator,
}
use social_gaming_platform.Chat.Room.Caches.{cached_remove, cached_add}
use social_gaming_platform.Chat.Room.Waitlist.{change, with_status, flush_waitlist}
use social_gaming_platform.Game.Controller.{Controller}

-- Room::Join.
pub data Join : Type 0 where
  as_player as_player_waiting as_spectator : Join

-- The listeners of the three signals of a room. ServerManager attaches ones that send messages.
pub record Signals (G : Type 0) : Type 0 where
  pub on_owner_change : MemberPtr → World G → World G
  pub on_member_join : MemberPtr → World G → World G
  pub on_member_leave : MemberPtr → World G → World G

-- Listeners that leave the room, the users' stats and the counter alone.
pub record IsQuiet {G : Type 0} (s : Signals G) : Type 0 where
  pub owner_change : (p : MemberPtr) (w : World G) → (s.on_owner_change p w).room ≡ w.room
  pub member_join : (p : MemberPtr) (w : World G) → (s.on_member_join p w).room ≡ w.room
  pub member_leave : (p : MemberPtr) (w : World G) → (s.on_member_leave p w).room ≡ w.room

abbrev pub full : Exception
full = chat_exception room_full none

-- `count - (found ? 1 : 0)` on size_t.
unfoldable pub without_self : ℕ → Option MemberPtr → ℕ
without_self n none = n
without_self n (some p) = (n + size_mod - 1) % size_mod

-- The switch of add_user, given whether a player's place and a spectator's place is free, and whether a
-- game is on.
unfoldable pub choose_status : {W : Type 0} → Join → Bool → Bool → Bool → Run W Status
choose_status as_player free watch_free active =
    if free
    then if active then throw (chat_exception not_allowed_during_game none) else pure player
    else throw full
choose_status as_spectator free watch_free active =
    if watch_free then pure spectator else throw full
choose_status as_player_waiting free watch_free active =
    if free then pure player else if watch_free then pure spectator else throw full

module _ {G : Type 0} where
  -- Places are counted without the one that the user has.
  unfoldable pub player_place : ℕ → Room G → Bool
  unfolding player_count find_player without_self
  player_place u r = ltb (without_self (player_count r) (find_player u r)) r.player_limit

  unfoldable pub spectator_place : ℕ → Room G → Bool
  unfolding spectator_count find_spectator without_self
  spectator_place u r =
      ltb (without_self (spectator_count r) (find_spectator u r)) r.spectator_limit

  -- The status that a user gets, or an exception.
  unfoldable pub join_status : Join → ℕ → Run (Room G) Status
  unfolding choose_status player_place spectator_place is_game_active
  join_status method u r =
      choose_status method (player_place u r) (spectator_place u r) (is_game_active r) r

abbrev pub enclose : {G A : Type 0} → World G → Outcome (Room G) A → Outcome (World G) A
enclose w (ok a r) = ok a (record w { room = r })
enclose w (threw e r) = threw e (record w { room = r })
enclose w undefined = undefined

-- A method of the room, run in the world around it.
abbrev pub in_world : {G A : Type 0} → Run (Room G) A → Run (World G) A
in_world m w = enclose w (m w.room)

-- `member->suppress_broadcasts = b;`
unfoldable pub suppress : {G : Type 0} → Bool → ℕ → Room G → Room G
unfolding Map.find Map.assign
suppress b u r = elim (Map.find u r.members) [
  | none ↦ r
  | some m ↦ record r { members = Map.assign (record m { suppress_broadcasts = b }) r.members }
]

-- The entry that `Member(user, status)` makes: it joins now, under the next number.
abbrev pub new_member : {G : Type 0} → ℕ → ℕ → Status → World G → Member
new_member now u status w = record {
  user = u;
  since = now;
  unique = w.counter;
  status = status;
  disqualified = false;
  suppress_broadcasts = true;
}

module _ {G : Type 0} (s : Signals G) where
  -- `owner` is not null.
  unfoldable pub set_owner : MemberPtr → Run (World G) (Unit {0})
  set_owner p w = elim (Map.find p.id w.room.members) [
    | none ↦ throw (chat_exception user_not_found none) w
    | some m ↦ ok tt (s.on_owner_change p (on_room (λ r. record r { owner = some p }) w))
  ]

  -- `if (!this->_owner) this->set_owner(member);`
  unfoldable pub claim_ownership : MemberPtr → Run (World G) (Unit {0})
  claim_ownership p w = elim w.room.owner [ none ↦ set_owner p w | some o ↦ ok tt w ]

  -- The second branch of add_user: a new entry, silent until its own join has been announced.
  unfoldable pub join : ℕ → ℕ → Status → Run (World G) (Unit {0})
  join now u status w =
      let m = new_member now u status w in
      let w' = record w {
        room = cached_add m (record w.room { members = Map.insert m w.room.members });
        counter = (w.counter + 1) % size_mod;
      } in
      (do
        claim_ownership (ptr m)
        modify (s.on_member_join (ptr m))
        modify (on_room (suppress false u)))
        w'

  -- The last paragraph of add_user: an entry that is there changes its status, under a guard.
  unfoldable pub enter : ℕ → ℕ → Status → Run (World G) (Unit {0})
  enter now u status w = elim (Map.find u w.room.members) [
    | none ↦ join now u status w
    | some m ↦ ok tt (on_room (change (with_status status) u) w)
  ]

  -- `now` is the reading of the clock.
  unfoldable pub add_user : ℕ → ℕ → Join → Run (World G) (Unit {0})
  add_user now u method = do status ← in_world (join_status method u); enter now u status

-- A read of an entry after it was erased from the map.
abbrev pub read_freed : {G A : Type 0} → Bool → Run (World G) A → Run (World G) A
read_freed reads op w = if reads then op w else undefined

module _ {G : Type 0} (s : Signals G) where
  -- What the owner's leaving does, given the members and the users' set. A set of users without a
  -- first element has no `begin()` to read.
  unfoldable pub hand_over : List Member → List MemberPtr → Run (World G) (Unit {0})
  hand_over [] users w = ok tt (on_room (λ r. record r { owner = none }) w)
  hand_over (m ∷ ms) [] w = undefined
  hand_over (m ∷ ms) (p ∷ ps) w = set_owner s p w

  -- `owner == user` follows `user`, a reference into the erased entry, and `owner`, which may point to it.
  unfoldable pub shift_from : Bool → ℕ → Option MemberPtr → Run (World G) (Unit {0})
  shift_from reads u none w = ok tt w
  shift_from reads u (some o) w =
      read_freed reads
        (λ w'. if o.id == u then hand_over w'.room.members w'.room.cached_users w' else ok tt w') w

  -- The last paragraph of _remove_user.
  unfoldable pub shift_owner : Bool → ℕ → Run (World G) (Unit {0})
  unfolding shift_from
  shift_owner reads u w = shift_from reads u w.room.owner w

-- `this->_game->...`: the game that a null pointer leads to.
unfoldable pub call_game : {G A : Type 0} → Run (World G) A → Run (World G) A
call_game op w = elim w.room.game [ none ↦ undefined | some g ↦ op w ]

module _ {G : Type 0} (c : Controller G) where
  -- The game hears of players who leave. In a game the source reads the entry `m` after it was erased.
  abbrev pub tell_game : Member → Run (World G) (Unit {0})
  tell_game m =
      if is_player m || is_disqualified m then call_game (c.on_player_quit m.user) else pure tt

  unfoldable pub notify_game : Bool → Member → Run (World G) (Unit {0})
  unfolding is_game_active is_player
  notify_game reads m w =
      (if is_game_active w.room then read_freed reads (tell_game m) else pure tt) w

module _ {G : Type 0} (s : Signals G) (c : Controller G) where
  -- From the erasure of the cached pointers on; `reads` says whether the erased entry still reads as it was.
  unfoldable pub remove_member : Bool → ℕ → Member → Run (World G) (Unit {0})
  remove_member reads u m = do
    modify (on_room (cached_remove m))
    modify (on_room (λ r. record r { members = Map.erase u r.members }))
    notify_game c reads m
    modify (on_room flush_waitlist)
    shift_owner s reads u

  -- Room::_remove_user. The listener of the leave event is called first.
  unfoldable pub remove_user : ℕ → Run (World G) (Unit {0})
  remove_user u w = elim (Map.find u w.room.members) [
    | none ↦ ok tt w
    | some m ↦ remove_member w.freed_reads u m (s.on_member_leave (ptr m) w)
  ]
