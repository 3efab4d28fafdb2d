-- ===== src/Prelude/Maybe.antt =====
-- `Option` as the result of code that may panic: `none` is a run-time panic of Go.
use mathlib.Core.Path.{◌≡◌, refl}
use mathlib.Core.Logic.{◌≢◌}
use mathlib.Core.Option.{Option, none, some}

infixl 5 ◌>>=◌
abbrev pub ◌>>=◌ {ℓ κ} : {A : Type ℓ} {B : Type κ} → Option A → (A → Option B) → Option B
none >>= f = none
some a >>= f = f a

-- A chain that returns has returned at each of its steps.
pub >>=-eq-some {ℓ κ} :
    {A : Type ℓ} {B : Type κ} (m : Option A) (f : A → Option B) {b : B}
    → (m >>= f) ≡ some b
    → (a : A) × (m ≡ some a) × (f a ≡ some b)
>>=-eq-some (some a) f h = (a, refl, h)
>>=-eq-some none f h = cc

-- A chain that does not panic returns something.
pub ne_none-some {ℓ} : {A : Type ℓ} (m : Option A) → m ≢ none → (a : A) × (m ≡ some a)
ne_none-some (some a) h = (a, refl)
ne_none-some none h = absurd (h refl)
