-- ===== src/Result.antt =====
-- arepa::Result (module/common/include/Result.hpp): a success with a value or a failure with an error.
use social_gaming_platform.Prelude.{◌≡◌, ◌⊎◌, inl, inr, refl, Bool, true, false, Text, codes}
use social_gaming_platform.Run.{Run, Exception, ok, threw, library_exception}

-- ResultException::Kind.
pub data Kind : Type 0 where
  not_value not_error : Kind

-- ResultException::what.
unfoldable pub what : Kind → Text
what not_value = codes "Attempted to unwrap value of error-type Result."
what not_error = codes "Attempted to unwrap error of value-type Result."

abbrev pub result_exception : Kind → Exception
result_exception k = library_exception (what k)

-- _OkResult and _ErrorResult, as `Ok` and `Error` make them.
pub data OkResult (V : Type 0) : Type 0 where
  make_ok : V → OkResult V

pub data ErrorResult (E : Type 0) : Type 0 where
  make_error : E → ErrorResult E

-- The flag with the member of the union that it says.
pub data Result (V E : Type 0) : Type 0 where
  success : V → Result V E
  failure : E → Result V E

module _ {V E : Type 0} where
  -- The constructors.
  unfoldable pub from_ok : OkResult V → Result V E
  from_ok (make_ok v) = success v

  unfoldable pub from_error : ErrorResult E → Result V E
  from_error (make_error e) = failure e

  -- `operator bool`.
  unfoldable pub is_ok : Result V E → Bool
  is_ok (success v) = true
  is_ok (failure e) = false

module _ {V E W : Type 0} where
  -- `operator*` and `error()`.
  unfoldable pub unwrap : Result V E → Run W V
  unfolding what
  unwrap (success v) w = ok v w
  unwrap (failure e) w = threw (result_exception not_error) w

  unfoldable pub unwrap_error : Result V E → Run W E
  unfolding what
  unwrap_error (success v) w = threw (result_exception not_error) w
  unwrap_error (failure e) w = ok e w

  -- Where the flag is up the value is there and the error throws; where it is down it is the other way
  -- round, with the same exception.
  unwrap_lem :
      (r : Result V E) (w : W)
      → ((is_ok r ≡ true)
          × ((v : V) × (unwrap r w ≡ ok v w))
          × (unwrap_error r w ≡ threw (result_exception not_error) w))
        ⊎ ((is_ok r ≡ false)
            × ((e : E) × (unwrap_error r w ≡ ok e w))
            × (unwrap r w ≡ threw (result_exception not_error) w))
  unfolding unwrap unwrap_error is_ok
  unwrap_lem (success v) w = inl (refl, (v, refl), refl)
  unwrap_lem (failure e) w = inr (refl, (e, refl), refl)
