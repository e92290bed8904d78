-- ===== src/Prelude/Effects/Traces.antt =====
-- What is known of the events of a run that returns, together with what it returns.
use mathlib.Core.Path.{◌≡◌, subst}
use mathlib.Core.List.{List, [], ◌∷◌, ◌++◌}
use mathlib.Core.Bool.{Bool, true, false}
use mathlib.Core.Option.{Option, none, some}
use infra.Prelude.Tests.{if◌then◌else◌}
use infra.Prelude.Effects.{
  Outcome, ok, raised, Failure, Run, pure, call, value, check, cause, ◌>>=◌, ◌>>◌, Every,
}

OnTrace {ℓ κ ν} : {E : Type ℓ} {A : Type κ} → (List E → A → Type ν) → List E → Outcome A → Type ν
OnTrace Q events (ok a) = Q events a
OnTrace Q events (raised failure) = Unit

unfoldable pub Traced {ℓ κ ν} : {E : Type ℓ} {A : Type κ} → (List E → A → Type ν) → Run E A → Type ν
unfolding OnTrace
Traced Q (events, o) = OnTrace Q events o

Traced-after {ℓ κ ν} :
    {E : Type ℓ} {A : Type κ} (Q : List E → A → Type ν) (events : List E) (run : Run E A)
    → Traced (λ later a. Q (events ++ later) a) run
    → Traced Q (events ++ run.0, run.1)
unfolding Traced
Traced-after Q events (later, ok a) q = q
Traced-after Q events (later, raised failure) q = tt

pub Traced-bind {ℓ κ μ ν ρ} :
    {E : Type ℓ} {A : Type κ} {B : Type μ} (R : List E → A → Type ρ) (Q : List E → B → Type ν)
    (m : Run E A) (f : A → Run E B)
    → Traced R m
    → ((events : List E) (a : A) → R events a → Traced (λ later b. Q (events ++ later) b) (f a))
    → Traced Q (m >>= f)
unfolding Traced ◌>>=◌
Traced-bind R Q (events, raised failure) f h k = tt
Traced-bind R Q (events, ok a) f h k = Traced-after Q events (f a) (k events a h)

module _ {ℓ κ ν} {E : Type ℓ} {A : Type κ} (Q : List E → A → Type ν) where
  pub Traced-pure : (a : A) → Q [] a → Traced Q (pure a)
  unfolding Traced pure
  Traced-pure a q = q

  pub Traced-value {μ} :
      {B : Type μ} (o : Option B) (f : B → Run E A)
      → ((b : B) → Traced Q (f b))
      → Traced Q (value o >>= f)
  unfolding Traced ◌>>=◌ value
  Traced-value (some b) f k = k b
  Traced-value none f k = tt

  pub Traced-check :
      (test : Bool) (failure : Failure) (m : Run E A)
      → Traced Q m
      → Traced Q (check test failure >> m)
  unfolding Traced ◌>>=◌ ◌>>◌ check
  Traced-check true failure m h = h
  Traced-check false failure m h = tt

  pub Traced-ok : (run : Run E A) (a : A) → Traced Q run → run.1 ≡ ok a → Q run.0 a
  unfolding Traced
  Traced-ok (events, o) a h e = subst (OnTrace Q events) e h

  pub Traced-if :
      (test : Bool) (x y : Run E A) → Traced Q x → Traced Q y → Traced Q (if test then x else y)
  Traced-if true x y h k = h
  Traced-if false x y h k = k

  pub Traced-cause : (e : E) (o : Outcome A) → ((a : A) → Q (e ∷ []) a) → Traced Q (cause e o)
  unfolding Traced cause
  Traced-cause e (ok a) h = h a
  Traced-cause e (raised failure) h = tt

  pub Traced-call {μ} :
      {B : Type μ} (o : Outcome B) (f : B → Run E A)
      → ((b : B) → Traced Q (f b))
      → Traced Q (call o >>= f)
  unfolding Traced ◌>>=◌ call
  Traced-call (ok b) f k = k b
  Traced-call (raised failure) f k = tt

  -- What comes after something that causes nothing.
  pub Traced-quiet {μ} :
      {B : Type μ} (m : Run E B) (f : B → Run E A)
      → Every (λ _. ⊥) m
      → ((b : B) → Traced Q (f b))
      → Traced Q (m >>= f)
  unfolding Traced ◌>>=◌ Every
  Traced-quiet ([], ok b) f h k = k b
  Traced-quiet ([], raised failure) f h k = tt
  Traced-quiet (e ∷ events, o) f (h, _) k = absurd h
