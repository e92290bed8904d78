-- ===== src/Prelude/Effects.antt =====
-- Code that calls out, may raise, and stops at the first exception: the events that it has caused,
-- in order, and what it returns or raises.
pub mod Returns
pub mod Traces
use mathlib.Core.Path.{◌≡◌, refl, sym, subst}
use mathlib.Core.Logic.{◌⊎◌, inl, inr}
use mathlib.Core.Bool.{Bool, true, false}
use mathlib.Core.Option.{Option, none, some}
use mathlib.Core.List.{List, [], ◌∷◌, ◌++◌}
use native.Mathlib.Omega.{arith}
use infra.Prelude.Tests.{if◌then◌else◌}
use infra.Prelude.Lists.{All}

-- The exceptions that the program tells apart.
pub data Failure : Type 0 where
  value_error : Failure
  runtime_error : Failure
  http_error : Failure
  timeout_error : Failure

pub data Outcome {ℓ} (A : Type ℓ) : Type ℓ where
  ok : A → Outcome A
  raised : Failure → Outcome A

abbrev pub Run {ℓ κ} : Type ℓ → Type κ → Type (ℓ ⊔ κ)
Run E A = List E × Outcome A

module _ {ℓ κ} {E : Type ℓ} {A : Type κ} where
  unfoldable pub pure : A → Run E A
  pure a = ([], ok a)

  unfoldable pub raise : Failure → Run E A
  raise failure = ([], raised failure)

  -- A call that causes nothing.
  unfoldable pub call : Outcome A → Run E A
  call o = ([], o)

  -- `none` is a `ValueError`.
  unfoldable pub value : Option A → Run E A
  unfolding pure raise
  value (some a) = pure a
  value none = raise value_error

-- `if not test: raise failure`
unfoldable pub check {ℓ} : {E : Type ℓ} → Bool → Failure → Run E (Unit {0})
unfolding pure raise
check true failure = pure tt
check false failure = raise failure

unfoldable pub cause {ℓ κ} : {E : Type ℓ} {A : Type κ} → E → Outcome A → Run E A
cause e o = (e ∷ [], o)

abbrev after {ℓ κ} : {E : Type ℓ} {B : Type κ} → List E → Run E B → Run E B
after events (later, o) = (events ++ later, o)

infixr 5 ◌>>=◌ ◌>>◌
unfoldable pub ◌>>=◌ {ℓ κ μ} :
    {E : Type ℓ} {A : Type κ} {B : Type μ} → Run E A → (A → Run E B) → Run E B
(events, ok a) >>= f = after events (f a)
(events, raised failure) >>= f = (events, raised failure)

unfoldable pub ◌>>◌ {ℓ κ} : {E : Type ℓ} {B : Type κ} → Run E (Unit {0}) → Run E B → Run E B
unfolding ◌>>=◌
m >> k = m >>= λ _. k

-- A predicate of every event of a run.
unfoldable pub Every {ℓ κ μ} : {E : Type ℓ} {A : Type κ} → (E → Type μ) → Run E A → Type μ
Every P (events, _) = All P events

All-append {ℓ κ} :
    {E : Type ℓ} (P : E → Type κ) (xs ys : List E) → All P xs → All P ys → All P (xs ++ ys)
All-append P [] ys h k = k
All-append P (x ∷ xs) ys (p, h) k = (p, All-append P xs ys h k)

module _ {ℓ κ μ ν} {E : Type ℓ} {A : Type κ} {B : Type μ} (P : E → Type ν) where
  pub Every-bind :
      (m : Run E A) (f : A → Run E B)
      → Every P m
      → ((a : A) → m.1 ≡ ok a → Every P (f a))
      → Every P (m >>= f)
  unfolding Every ◌>>=◌ ◌>>◌ call value cause check pure raise
  Every-bind (events, ok a) f h k = All-append P events (f a).0 h (k a refl)
  Every-bind (events, raised failure) f h k = h

  pub Every-call :
      (o : Outcome A) (f : A → Run E B)
      → ((a : A) → o ≡ ok a → Every P (f a))
      → Every P (call o >>= f)
  unfolding Every ◌>>=◌ ◌>>◌ call value cause check pure raise
  Every-call (ok a) f k = k a refl
  Every-call (raised failure) f k = tt

  pub Every-value :
      (o : Option A) (f : A → Run E B)
      → ((a : A) → o ≡ some a → Every P (f a))
      → Every P (value o >>= f)
  unfolding Every ◌>>=◌ ◌>>◌ call value cause check pure raise
  Every-value (some a) f k = k a refl
  Every-value none f k = tt

  pub Every-cause :
      (e : E) (o : Outcome A) (f : A → Run E B)
      → P e
      → ((a : A) → o ≡ ok a → Every P (f a))
      → Every P (cause e o >>= f)
  unfolding Every ◌>>=◌ ◌>>◌ call value cause check pure raise
  Every-cause e (ok a) f p k = (p, k a refl)
  Every-cause e (raised failure) f p k = (p, tt)

pub Every-check {ℓ κ ν} :
    {E : Type ℓ} {B : Type κ} (P : E → Type ν) (test : Bool) (failure : Failure) (k : Run E B)
    → (test ≡ true → Every P k)
    → Every P (check test failure >> k)
unfolding Every ◌>>=◌ ◌>>◌ call value cause check pure raise
Every-check P true failure k h = h refl
Every-check P false failure k h = tt

pub Every-passed {ℓ κ ν} :
    {E : Type ℓ} {B : Type κ} (P : E → Type ν) (o : Option (Unit {0})) (k : Run E B)
    → (o ≡ some tt → Every P k)
    → Every P (value o >> k)
unfolding Every ◌>>=◌ ◌>>◌ call value cause check pure raise
Every-passed P (some tt) k h = h refl
Every-passed P none k h = tt

pub Every-returned {ℓ κ ν} :
    {E : Type ℓ} {B : Type κ} (P : E → Type ν) (o : Outcome (Unit {0})) (k : Run E B)
    → (o ≡ ok tt → Every P k)
    → Every P (call o >> k)
unfolding Every ◌>>=◌ ◌>>◌ call value cause check pure raise
Every-returned P (ok tt) k h = h refl
Every-returned P (raised failure) k h = tt

pub Every-pure {ℓ κ ν} : {E : Type ℓ} {A : Type κ} (P : E → Type ν) (a : A) → Every P (pure a)
unfolding Every pure
Every-pure P a = tt

pub Every-end {ℓ κ ν} :
    {E : Type ℓ} {A : Type κ} (P : E → Type ν) (e : E) (o : Outcome A) → P e → Every P (cause e o)
unfolding Every cause
Every-end P e o p = (p, tt)

pub Every-if {ℓ κ ν} :
    {E : Type ℓ} {B : Type κ} (P : E → Type ν) (test : Bool) (x y : Run E B)
    → (test ≡ true → Every P x)
    → (test ≡ false → Every P y)
    → Every P (if test then x else y)
Every-if P true x y h k = h refl
Every-if P false x y h k = k refl

-- An event that a run has caused.
pub CausedIn : {E : Type 0} → E → List E → Type 0
CausedIn e [] = ⊥
CausedIn e (x ∷ xs) = (x ≡ e) ⊎ CausedIn e xs

pub Caused {κ} : {E : Type 0} {A : Type κ} → E → Run E A → Type 0
Caused e (events, _) = CausedIn e events

All-CausedIn {κ} :
    {E : Type 0} (P : E → Type κ) (e : E) (xs : List E) → All P xs → CausedIn e xs → P e
unfolding CausedIn
All-CausedIn P e [] h c = absurd c
All-CausedIn P e (x ∷ xs) (p, h) (inl same) = subst P same p
All-CausedIn P e (x ∷ xs) (p, h) (inr c) = All-CausedIn P e xs h c

pub Every-Caused {κ μ} :
    {E : Type 0} {A : Type κ} (P : E → Type μ) (e : E) (run : Run E A)
    → Every P run
    → Caused e run
    → P e
unfolding Caused Every
Every-Caused P e (events, _) h c = All-CausedIn P e events h c

-- The first of the events of a run is caused by it.
pub first-Caused {κ} :
    {E : Type 0} {A : Type κ} (run : Run E A) (e : E) (rest : List E)
    → run.0 ≡ e ∷ rest
    → Caused e run
unfolding Caused CausedIn
first-Caused (_, _) e rest h = subst (CausedIn e) (sym h) (inl refl)
