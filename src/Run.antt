-- ===== src/Run.antt =====
-- Methods that change objects and may throw. What was written before a throw stays written, so an
-- exception carries the state too. `undefined` stands for what C++ leaves undefined: a null or dangling
-- pointer that is followed, an iterator past the end. It stands too for a failed `assert` of the
-- interpreter and of the state of a game.
pub mod Keeps
use social_gaming_platform.Prelude.{Option, Text, Bool, true, false}

-- module/chat/include/ChatException.hpp, ChatException::Kind.
pub data ChatError : Type 0 where
  user_not_found user_nickname_taken room_not_found room_full : ChatError
  not_allowed_during_game not_allowed_option requires_game : ChatError

-- The exceptions of the modelled code: ChatException with its details, GameException (kind OTHER),
-- std::runtime_error with its text, and any other exception of a library, by its name.
pub data Exception : Type 0 where
  chat_exception : ChatError → Option Text → Exception
  game_exception : Text → Exception
  runtime_error : Text → Exception
  library_exception : Text → Exception

pub data Outcome (W A : Type 0) : Type 0 where
  ok : A → W → Outcome W A
  threw : Exception → W → Outcome W A
  undefined : Outcome W A

abbrev pub Run : Type 0 → Type 0 → Type 0
Run W A = W → Outcome W A

module _ {W A : Type 0} where
  abbrev pub pure : A → Run W A
  pure a w = ok a w

  abbrev pub throw : Exception → Run W A
  throw e w = threw e w

  -- Undefined behaviour.
  abbrev pub fault : Run W A
  fault w = undefined

  abbrev pub gets : (W → A) → Run W A
  gets f w = ok (f w) w

abbrev pub modify : {W : Type 0} → (W → W) → Run W (Unit {0})
modify f w = ok tt (f w)

abbrev pub continue : {W A B : Type 0} → Outcome W A → (A → Run W B) → Outcome W B
continue (ok a w) f = f a w
continue (threw e w) f = threw e w
continue undefined f = undefined

infixl 5 ◌>>=◌ ◌>>◌
abbrev pub ◌>>=◌ : {W A B : Type 0} → Run W A → (A → Run W B) → Run W B
◌>>=◌ m f w = continue (m w) f

abbrev pub ◌>>◌ : {W B : Type 0} → Run W (Unit {0}) → Run W B → Run W B
m >> k = m >>= λ _. k

-- `if (b) throw e;`
abbrev pub throw_if : {W : Type 0} → Bool → Exception → Run W (Unit {0})
throw_if true e w = threw e w
throw_if false e w = ok tt w
