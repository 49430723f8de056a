-- ===== src/Prelude/Chain.antt =====
-- Chains of steps that may each end with none, as early returns of `None` do.
use mathlib.Core.Path.{◌≡◌, refl, subst}
use mathlib.Core.Bool.{Bool, true, false}
use mathlib.Core.Option.{Option, none, some, some-injective}
use poly_meridian.Prelude.Tests.{if◌then◌else◌}
use native.Mathlib.Omega.{arith}

infixl 1 ◌>>=◌
unfoldable pub ◌>>=◌ : {A B : Type 0} → Option A → (A → Option B) → Option B
none >>= f = none
some a >>= f = f a

-- The rest of a chain goes on only if the test holds.
unfoldable pub require : Bool → Option {0} Unit
require true = some tt
require false = none

-- What a chain ends with, if it does not end with none, has the property.
pub record Ends {A : Type 0} (P : A → Type 0) (o : Option A) : Type 0 where
  pub each : (a : A) → o ≡ some a → P a

module _ {A : Type 0} {P : A → Type 0} where
  pub Ends-none : Ends P none
  Ends-none = record { each = λ a e. absurd (ground arith) }

  pub Ends-some : {a : A} → P a → Ends P (some a)
  Ends-some {a} h = record { each = λ b e. subst P (some-injective a b e) h }

module _ {A : Type 0} {P : A → Type 0} where
  pub if-Ends :
      (b : Bool) (o p : Option A) → (b ≡ true → Ends P o) → Ends P p → Ends P (if b then o else p)
  if-Ends true o p h k = h refl
  if-Ends false o p h k = k

module _ {A B : Type 0} {P : B → Type 0} where
  pub bind-Ends :
      (o : Option A) (f : A → Option B) → ((a : A) → o ≡ some a → Ends P (f a)) → Ends P (o >>= f)
  unfolding ◌>>=◌
  bind-Ends none f h = Ends-none
  bind-Ends (some a) f h = h a refl

module _ {B : Type 0} {P : B → Type 0} where
  pub require-Ends :
      (b : Bool) (f : Unit {0} → Option B) → (b ≡ true → Ends P (f tt)) → Ends P (require b >>= f)
  unfolding ◌>>=◌ require
  require-Ends true f h = h refl
  require-Ends false f h = Ends-none
