-- ===== src/Serializer/Specification/Stops.antt =====
-- Parts of the serializer that never return (module/serializer/src/jsonSerializer.cpp).
use social_gaming_platform.Prelude.{◌≡◌, ◌≢◌, refl, sym, ap, ◌∙◌}
use social_gaming_platform.Run.{Outcome, ok, threw, undefined, continue, ◌>>=◌}
use social_gaming_platform.Serializer.Json.{Parse, Returns}

-- A `do` block that returned: its first part did.
pub continue-eq-ok :
    {A B : Type 0} (o : Outcome (Unit {0}) A) (f : A → Parse B) {b : B} {w' : Unit {0}}
    → continue o f ≡ ok b w'
    → (a : A) × (w : Unit {0}) × (o ≡ ok a w) × (f a w ≡ ok b w')
continue-eq-ok (ok a w) f h = (a, w, refl, h)
continue-eq-ok (threw e w) f h = absurd (cc h)
continue-eq-ok undefined f h = absurd (cc h)

-- A call that never returns.
abbrev pub Stops : {A : Type 0} → Parse A → Type 0
Stops {A} m = (w : Unit {0}) (a : A) (w' : Unit {0}) → m w ≢ ok a w'

pub Stops-bind : {A B : Type 0} (m : Parse A) (k : A → Parse B) → Stops m → Stops (m >>= k)
Stops-bind m k h w b w' e = let (a, w'', ran, rest) = continue-eq-ok (m w) k e in h w a w'' ran

pub Stops-rest :
    {A B : Type 0} (m : Parse A) (k : A → Parse B) → ((a : A) → Stops (k a)) → Stops (m >>= k)
Stops-rest m k h w b w' e = let (a, w'', ran, rest) = continue-eq-ok (m w) k e in h a w'' b w' rest

pub Stops-run :
    {A B : Type 0} (m : Parse A) (a : A) (k : A → Parse B)
    → Returns m a
    → Stops (k a)
    → Stops (m >>= k)
Stops-run m a k run h w b w' e = h w b w' (sym (ap (λ o. continue o k) (run w)) ∙ e)
