-- ===== src/Base/Decimal.antt =====
-- `str(n)` of a natural number, as f-strings print it.
use Prim.Native.Nat.{ℕ, zero, suc, ◌+◌, ◌/◌, ◌%◌}
use Prim.Native.String.{String, ◌++◌}
use mathlib.Core.Path.{◌≡◌, refl}
use nova_adapt.Base.Tests.{◌==◌, ltb, if◌then◌else◌}

digit : ℕ → String
digit n =
    if n == 0
    then "0"
    else if n == 1
    then "1"
    else if n == 2
    then "2"
    else if n == 3
    then "3"
    else if n == 4
    then "4"
    else if n == 5
    then "5"
    else if n == 6
    then "6"
    else if n == 7
    then "7"
    else if n == 8
    then "8"
    else "9"

show_from : ℕ → ℕ → String
unfolding digit
show_from zero n = ""
show_from (suc fuel) n =
    let rest = show_from fuel (n / 10) ++ digit (n % 10) in if ltb n 10 then digit n else rest

-- A number has fewer digits than its successor counts.
unfoldable pub show : ℕ → String
unfolding show_from
show n = show_from (n + 1) n

show_example : show 1024 ≡ "1024"
unfolding show
show_example = refl
