-- ===== src/Server/Upkeep.antt =====
-- What ServerManager keeps true while users join and leave rooms (module/server/src/ServerManager.cpp).
use social_gaming_platform.Prelude.{
  ℕ, ◌+◌, ◌<◌, Option, none, some, List, Text, length, ◌==◌, ==_iff, ◌≡◌, refl, inl, inr,
  Bool-cases,
}
use social_gaming_platform.Run.{
  Run, Outcome, ok, threw, undefined, continue, gets, modify, ◌>>=◌, ◌>>◌,
}
use social_gaming_platform.Run.Keeps.{Holds}
use social_gaming_platform.Std.PtrSet.{MemberPtr}
use social_gaming_platform.Chat.User.{User}
use social_gaming_platform.Chat.Member.Map.{FreshTime}
use social_gaming_platform.Chat.Room.{World, size_mod, find_user_named, broadcast_message}
use social_gaming_platform.Chat.Room.Good.{Good}
use social_gaming_platform.Chat.Room.Joins.{add_user-Good}
use social_gaming_platform.Chat.Room.Entered.{OnReturn, IsMember, add_user-IsMember}
use social_gaming_platform.Chat.Room.Membership.{IsQuiet, as_player_waiting, add_user}
use social_gaming_platform.Server.{
  ServerManager, room_listeners, world, with_world, back, on, find_user_room,
}
use social_gaming_platform.Server.Movement.{
  free_name, need_nickname, enter_room, join_unless, user_join_room,
}
use social_gaming_platform.Server.Registry.{emplace, Once, look_up-emplace, emplace-Once}

-- Every room is well formed, and no user has two rooms.
pub record WellKept {G : Type 0} (s : ServerManager G) : Type 0 where
  pub rooms_good : (h : ℕ) → Good (s.room_at h)
  pub users_once : Once s.userid_to_room

pub room_listeners-IsQuiet : {G : Type 0} → IsQuiet (room_listeners {G = G})
unfolding room_listeners broadcast_message
room_listeners-IsQuiet = record {
  owner_change = λ p w. refl;
  member_join = λ p w. refl;
  member_leave = λ p w. refl;
}

-- The room of a user after a join to `h`: the one that the user is in, or else `h`.
abbrev pub room_after : Option ℕ → ℕ → ℕ
room_after none h = h
room_after (some k) h = k

module _ {G : Type 0} where
  pub with_world-WellKept :
      (h : ℕ) (w : World G) (s : ServerManager G)
      → Good w.room
      → WellKept s
      → WellKept (with_world h w s)
  with_world-WellKept h w s g k = record {
    rooms_good = λ j. elim (Bool-cases (j == h)) [ inl e ↦ rw e g | inr e ↦ rw e (k.rooms_good j) ];
    users_once = k.users_once;
  }

  -- A user who was in no room is a member of the room joined.
  abbrev pub Inside : ℕ → ℕ → Option ℕ → ServerManager G → Type 0
  Inside u h none s = IsMember u (s.room_at h)
  Inside u h (some k) s = Unit {0}

  -- A user whose room was `before` has the room `room_after` it when a join returns, and none when it
  -- throws.
  abbrev pub Joined : ℕ → ℕ → Option ℕ → Outcome (ServerManager G) (Unit {0}) → Type 0
  Joined u h before (ok a s) =
      WellKept s × (find_user_room u s ≡ some (room_after before h)) × Inside u h before s
  Joined u h before (threw e s) = WellKept s × (find_user_room u s ≡ none)
  Joined u h before undefined = ⊥

  -- What join needs of a server whose user is in no room.
  record Ready (now u h : ℕ) (s : ServerManager G) : Type 0 where
    kept : WellKept s
    free : find_user_room u s ≡ none
    fresh : FreshTime now (s.room_at h).members
    space : length (s.room_at h).members + 1 < size_mod

  -- Names and messages do not matter to it.
  abbrev restyled : (ℕ → User) → List (ℕ × Text) → ServerManager G → ServerManager G
  restyled users sent s = record s { users = users; sent = sent }

  restyled-Ready :
      (now u h : ℕ) (users : ℕ → User) (sent : List (ℕ × Text)) (s : ServerManager G)
      → Ready now u h s
      → Ready now u h (restyled users sent s)
  unfolding find_user_room
  restyled-Ready now u h users sent s r = record {
    kept = record { rooms_good = r.kept.rooms_good; users_once = r.kept.users_once };
    free = r.free;
    fresh = r.fresh;
    space = r.space;
  }

  settled :
      (u h : ℕ) (s : ServerManager G) (o : Outcome (World G) (Unit {0}))
      → WellKept s
      → find_user_room u s ≡ none
      → Holds (λ w. Good w.room) o
      → OnReturn (λ w. IsMember u w.room) o
      → Joined u h none (
          continue
            (back h s o)
            (λ x. modify (λ t. record t { userid_to_room = emplace ◌==◌ u h t.userid_to_room })))
  unfolding find_user_room
  settled u h s (ok a w) k f g i = (
    record {
      rooms_good = (with_world-WellKept h w s g k).rooms_good;
      users_once = emplace-Once u h s.userid_to_room k.users_once;
    },
    look_up-emplace u h s.userid_to_room f,
    rw ((==_iff h h).1 refl) i,
  )
  settled u h s (threw e w) k f g i = (with_world-WellKept h w s g k, f)
  settled u h s undefined k f g i = g

  settle : ℕ → ℕ → ℕ → Run (ServerManager G) (Unit {0})
  settle now u h = do
    on h (add_user room_listeners now u as_player_waiting)
    modify (λ s. record s { userid_to_room = emplace ◌==◌ u h s.userid_to_room })

  settle-Joined :
      (now u h : ℕ) (s : ServerManager G) → Ready now u h s → Joined u h none (settle now u h s)
  unfolding settle
  settle-Joined now u h s r =
      settled u h s (add_user room_listeners now u as_player_waiting (world h s)) r.kept r.free
        (add_user-Good room_listeners room_listeners-IsQuiet now u as_player_waiting (world h s)
          r.fresh r.space (r.kept.rooms_good h))
        (add_user-IsMember room_listeners room_listeners-IsQuiet now u as_player_waiting
          (world h s))

  with_nickname :
      (now u h : ℕ) (generated : Text) (o : Option Text) (s : ServerManager G)
      → Ready now u h s
      → Joined u h none ((need_nickname u generated o >> settle now u h) s)
  with_nickname now u h generated (some n) s r = settle-Joined now u h s r
  with_nickname now u h generated none s r =
      settle-Joined now u h (restyled _ _ s) (restyled-Ready now u h _ _ s r)

  named : ℕ → ℕ → ℕ → Text → Run (ServerManager G) (Unit {0})
  named now u h generated = do
    nickname ← gets (λ s. (s.users u).nickname)
    need_nickname u generated nickname
    settle now u h

  named-Joined :
      (now u h : ℕ) (generated : Text) (s : ServerManager G)
      → Ready now u h s
      → Joined u h none (named now u h generated s)
  unfolding named
  named-Joined now u h generated s r = with_nickname now u h generated (s.users u).nickname s r

  with_name :
      (now u h : ℕ) (generated : Text) (o : Option MemberPtr) (s : ServerManager G)
      → Ready now u h s
      → Joined u h none ((free_name u o >> named now u h generated) s)
  with_name now u h generated none s r = named-Joined now u h generated s r
  with_name now u h generated (some p) s r =
      named-Joined now u h generated (restyled _ _ s) (restyled-Ready now u h _ _ s r)

  enter_room-Joined :
      (now u h : ℕ) (generated : Text) (s : ServerManager G)
      → Ready now u h s
      → Joined u h none (enter_room now u h generated s)
  unfolding named settle
  enter_room-Joined now u h generated s r =
      with_name now u h generated (find_user_named (s.users u).name (world h s)) s r

  join_unless-Joined :
      (now u h : ℕ) (generated : Text) (o : Option ℕ) (s : ServerManager G)
      → find_user_room u s ≡ o
      → WellKept s
      → FreshTime now (s.room_at h).members
      → length (s.room_at h).members + 1 < size_mod
      → Joined u h o (join_unless u o (enter_room now u h generated) s)
  unfolding find_user_room
  join_unless-Joined now u h generated none s e k f l =
      enter_room-Joined now u h generated s (record { kept = k; free = e; fresh = f; space = l })
  join_unless-Joined now u h generated (some j) s e k f l =
      (record { rooms_good = k.rooms_good; users_once = k.users_once }, e, tt)

  pub user_join_room_lem :
      (now u h : ℕ) (generated : Text) (s : ServerManager G)
      → WellKept s
      → FreshTime now (s.room_at h).members
      → length (s.room_at h).members + 1 < size_mod
      → Joined u h (find_user_room u s) (user_join_room now u h generated s)
  unfolding user_join_room
  user_join_room_lem now u h generated s k f l =
      join_unless-Joined now u h generated (find_user_room u s) s refl k f l
