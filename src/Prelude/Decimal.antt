-- ===== src/Prelude/Decimal.antt =====
-- `str(n)` of a natural number.
pub mod Parse
use Prim.Native.Nat.{ℕ, zero, suc, ◌+◌, ◌/◌, ◌%◌}
use Prim.Native.String.{String, slice, ◌++◌ as ◌<>◌}
use mathlib.Core.Path.{◌≡◌, refl}
use infra.Prelude.Tests.{ltb, if◌then◌else◌}

digit : ℕ → String
digit n = slice "0123456789" n (n + 1)

-- The fuel is the number itself, plus one: a division by ten makes it smaller.
digits_of : ℕ → ℕ → String
unfolding digit
digits_of zero n = ""
digits_of (suc fuel) n =
    let front = digits_of fuel (n / 10) in if ltb n 10 then digit n else front <> digit (n % 10)

unfoldable pub decimal : ℕ → String
unfolding digits_of
decimal n = digits_of (n + 1) n

decimal_runs : decimal 1800 ≡ "1800"
unfolding decimal
decimal_runs = refl
