-- ===== src/Chat/Member.antt =====
-- module/chat/include/Member.hpp, module/chat/src/Member.cpp: a user's place in a room.
pub mod Map
pub mod Cache
use social_gaming_platform.Prelude.{ℕ, Bool, true, false, ltb, ◌==◌, ◌&&◌}
use social_gaming_platform.Std.PtrSet.{MemberPtr}

-- Member::Status.
pub data Status : Type 0 where
  player player_waitlist spectator : Status

-- The shared user is named by its id. `since` is a reading of the system clock, `unique` a counter.
pub record Member : Type 0 where
  pub user : ℕ
  pub since : ℕ
  pub unique : ℕ
  pub status : Status
  pub disqualified : Bool
  pub suppress_broadcasts : Bool

unfoldable pub is_player : Member → Bool
is_player m = elim m.status [ player ↦ true | _ ↦ false ]

unfoldable pub is_spectator : Member → Bool
is_spectator m = elim m.status [ player ↦ false | _ ↦ true ]

unfoldable pub is_waitlisted : Member → Bool
is_waitlisted m = elim m.status [ player_waitlist ↦ true | _ ↦ false ]

abbrev pub is_disqualified : Member → Bool
is_disqualified m = m.disqualified

-- Member::operator==: two entries are one if user and counter agree.
unfoldable pub same_member : Member → Member → Bool
same_member a b = a.user == b.user && a.unique == b.unique

-- Member::operator<.
unfoldable pub joined_before : Member → Member → Bool
joined_before a b = ltb a.since b.since

-- The pointer to an entry.
abbrev pub ptr : Member → MemberPtr
ptr m = record { since = m.since; id = m.user }
