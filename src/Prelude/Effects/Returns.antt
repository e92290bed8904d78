-- ===== src/Prelude/Effects/Returns.antt =====
-- What is known of a value that a run returns.
use mathlib.Core.Path.{◌≡◌, refl, subst}
use mathlib.Core.Bool.{Bool, true, false}
use mathlib.Core.Option.{Option, none, some}
use infra.Prelude.Effects.{
  Failure, Outcome, ok, raised, Run, pure, raise, value, check, ◌>>=◌, ◌>>◌,
}

OnReturn {κ ν} : {A : Type κ} → (A → Type ν) → Outcome A → Type ν
OnReturn Q (ok a) = Q a
OnReturn Q (raised failure) = Unit

unfoldable pub Returns {ℓ κ ν} : {E : Type ℓ} {A : Type κ} → (A → Type ν) → Run E A → Type ν
unfolding OnReturn
Returns Q (_, o) = OnReturn Q o

module _ {ℓ κ μ ν} {E : Type ℓ} {A : Type κ} {B : Type μ} (Q : B → Type ν) where
  pub Returns-value :
      (o : Option A) (f : A → Run E B)
      → ((a : A) → o ≡ some a → Returns Q (f a))
      → Returns Q (value o >>= f)
  unfolding Returns ◌>>=◌ value pure raise
  Returns-value (some a) f k = k a refl
  Returns-value none f k = tt

pub Returns-bind {ℓ κ μ ν ρ} :
    {E : Type ℓ} {A : Type κ} {B : Type μ} (R : A → Type ρ) (Q : B → Type ν) (m : Run E A)
    (f : A → Run E B)
    → Returns R m
    → ((a : A) → R a → Returns Q (f a))
    → Returns Q (m >>= f)
unfolding Returns ◌>>=◌
Returns-bind R Q (events, ok a) f h k = k a h
Returns-bind R Q (events, raised failure) f h k = tt

module _ {ℓ μ ν} {E : Type ℓ} {B : Type μ} (Q : B → Type ν) where
  pub Returns-check :
      (test : Bool) (failure : Failure) (k : Run E B)
      → (test ≡ true → Returns Q k)
      → Returns Q (check test failure >> k)
  unfolding Returns ◌>>◌ ◌>>=◌ check pure raise
  Returns-check true failure k h = h refl
  Returns-check false failure k h = tt

  pub Returns-passed :
      (o : Option (Unit {0})) (k : Run E B) → (o ≡ some tt → Returns Q k) → Returns Q (value o >> k)
  unfolding Returns ◌>>◌ ◌>>=◌ value pure raise
  Returns-passed (some tt) k h = h refl
  Returns-passed none k h = tt

  pub Returns-ok : (run : Run E B) (b : B) → Returns Q run → run.1 ≡ ok b → Q b
  unfolding Returns
  Returns-ok (_, o) b h e = subst (OnReturn Q) e h

pub Returns-pure {ℓ μ ν} :
    (E : Type ℓ) {B : Type μ} (Q : B → Type ν) (b : B) → Q b → Returns Q (pure {E = E} b)
unfolding Returns pure
Returns-pure E Q b q = q

-- What holds of every value holds of the one that is returned.
pub Returns-any {ℓ μ ν} :
    {E : Type ℓ} {B : Type μ} (Q : B → Type ν) (run : Run E B) → ((b : B) → Q b) → Returns Q run
unfolding Returns
Returns-any Q (_, ok b) h = h b
Returns-any Q (_, raised failure) h = tt
