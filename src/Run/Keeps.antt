-- ===== src/Run/Keeps.antt =====
-- Invariants of methods: one rule for each way to build a method.
use social_gaming_platform.Prelude.{Bool, true, false, if◌then◌else◌}
use social_gaming_platform.Run.{
  Exception, Outcome, continue, ok, threw, undefined, Run, pure, throw, gets, modify, ◌>>=◌,
  throw_if,
}

-- The method ended, by a return or by an exception, in a state with `P`; it did nothing undefined.
abbrev pub Holds : {W A : Type 0} → (W → Type 0) → Outcome W A → Type 0
Holds P (ok a w) = P w
Holds P (threw e w) = P w
Holds P undefined = ⊥

pub record Keeps {W A : Type 0} (P : W → Type 0) (m : Run W A) : Type 0 where
  pub at : (w : W) → P w → Holds P (m w)

module _ {W A : Type 0} {P : W → Type 0} where
  pub Keeps-pure : (a : A) → Keeps P (pure a)
  Keeps-pure a = record { at = λ w h. h }

  pub Keeps-throw : (e : Exception) → Keeps P (throw {A = A} e)
  Keeps-throw e = record { at = λ w h. h }

  pub Keeps-gets : (f : W → A) → Keeps P (gets f)
  Keeps-gets f = record { at = λ w h. h }

  pub Keeps-if : (b : Bool) (m n : Run W A) → Keeps P m → Keeps P n → Keeps P (if b then m else n)
  Keeps-if true m n km kn = km
  Keeps-if false m n km kn = kn

module _ {W : Type 0} {P : W → Type 0} where
  pub Keeps-modify : (f : W → W) → ((w : W) → P w → P (f w)) → Keeps P (modify f)
  Keeps-modify f h = record { at = h }

  pub Keeps-throw_if : (b : Bool) (e : Exception) → Keeps P (throw_if b e)
  Keeps-throw_if true e = record { at = λ w h. h }
  Keeps-throw_if false e = record { at = λ w h. h }

module _ {W A B : Type 0} {P : W → Type 0} where
  -- What is left of a method after an outcome with `P`.
  pub Holds-continue :
      (r : Outcome W A) (f : A → Run W B)
      → Holds P r
      → ((a : A) → Keeps P (f a))
      → Holds P (continue r f)
  Holds-continue (ok a w) f h k = (k a).at w h
  Holds-continue (threw e w) f h k = h
  Holds-continue undefined f h k = h

  pub Keeps-bind :
      (m : Run W A) (f : A → Run W B) → Keeps P m → ((a : A) → Keeps P (f a)) → Keeps P (m >>= f)
  Keeps-bind m f km kf = record { at = λ w h. Holds-continue (m w) f (km.at w h) kf }

module _ {W A B : Type 0} {P Q : W → Type 0} where
  -- The same from one property to another.
  pub Holds-chain :
      (r : Outcome W A) (f : A → Run W B)
      → Holds P r
      → ((w : W) → P w → Q w)
      → ((a : A) (w : W) → P w → Holds Q (f a w))
      → Holds Q (continue r f)
  Holds-chain (ok a w) f h q k = k a w h
  Holds-chain (threw e w) f h q k = q w h
  Holds-chain undefined f h q k = absurd h

pub Holds-mono :
    {W A : Type 0} {P Q : W → Type 0} (r : Outcome W A)
    → ((w : W) → P w → Q w)
    → Holds P r
    → Holds Q r
Holds-mono (ok a w) k h = k w h
Holds-mono (threw e w) k h = k w h
Holds-mono undefined k h = h

-- The same where `D` is what an undefined end comes to.
abbrev pub HoldsOr : {W A : Type 0} → Type 0 → (W → Type 0) → Outcome W A → Type 0
HoldsOr D P (ok a w) = P w
HoldsOr D P (threw e w) = P w
HoldsOr D P undefined = D

pub record KeepsOr {W A : Type 0} (D : Type 0) (P : W → Type 0) (m : Run W A) : Type 0 where
  pub at : (w : W) → P w → HoldsOr D P (m w)

pub HoldsOr-chain :
    {W A B : Type 0} (D : Type 0) {P Q : W → Type 0} (r : Outcome W A) (f : A → Run W B)
    → HoldsOr D P r
    → ((w : W) → P w → Q w)
    → ((a : A) (w : W) → P w → HoldsOr D Q (f a w))
    → HoldsOr D Q (continue r f)
HoldsOr-chain D (ok a w) f h q k = k a w h
HoldsOr-chain D (threw e w) f h q k = q w h
HoldsOr-chain D undefined f h q k = h

pub HoldsOr-continue :
    {W A B : Type 0} (D : Type 0) {P : W → Type 0} (r : Outcome W A) (f : A → Run W B)
    → HoldsOr D P r
    → ((a : A) → KeepsOr D P (f a))
    → HoldsOr D P (continue r f)
HoldsOr-continue D r f h k = HoldsOr-chain D r f h (λ w p. p) (λ a w p. (k a).at w p)

pub ruleset keeps_rules =
    (Keeps-pure, Keeps-throw, Keeps-gets, Keeps-if, Keeps-modify, Keeps-throw_if, Keeps-bind)
