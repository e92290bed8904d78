-- ===== src/Prelude/Errors.antt =====
-- Checks that may fail, in order, and what a success says of them.
use mathlib.Core.Path.{◌≡◌, refl}
use mathlib.Core.Bool.{Bool, true, false}
use mathlib.Core.Option.{Option, none, some}
use native.Mathlib.Omega.{arith}

infixl 5 ◌>>=◌ ◌>>◌
abbrev pub ◌>>=◌ {ℓ κ} : {A : Type ℓ} {B : Type κ} → Option A → (A → Option B) → Option B
some a >>= f = f a
none >>= f = none

abbrev pub ◌>>◌ {ℓ} : {B : Type ℓ} → Option (Unit {0}) → Option B → Option B
m >> k = m >>= λ _. k

-- `if not test: raise ValueError`
abbrev pub require : Bool → Option (Unit {0})
require true = some tt
require false = none

-- What a chain that succeeded has bound.
pub bind-some {ℓ κ} :
    {A : Type ℓ} {B : Type κ} (m : Option A) (f : A → Option B) (b : B)
    → (m >>= f) ≡ some b
    → (a : A) × ((m ≡ some a) × (f a ≡ some b))
bind-some (some a) f b e = (a, (refl, e))
bind-some none f b e = ground arith

-- A check that succeeded, and what it was in front of.
pub require-some {ℓ} :
    {B : Type ℓ} (test : Bool) (k : Option B) (b : B)
    → (require test >> k) ≡ some b
    → (test ≡ true) × (k ≡ some b)
require-some true k b e = (refl, e)
require-some false k b e = ground arith

pub seq-some {ℓ} :
    {B : Type ℓ} (m : Option (Unit {0})) (k : Option B) (b : B)
    → (m >> k) ≡ some b
    → (m ≡ some tt) × (k ≡ some b)
seq-some (some tt) k b e = (refl, e)
seq-some none k b e = ground arith

pub require-true : (test : Bool) → require test ≡ some tt → test ≡ true
require-true true e = refl
require-true false e = ground arith

pub require-passes : (test : Bool) → test ≡ true → require test ≡ some tt
require-passes test e = rw e refl
