-- ===== src/Base/Lower.antt =====
-- Python's `str.lower` on the Latin capitals A to Z; other characters are left alone.
use Prim.Native.Nat.{ℕ}
use Prim.Native.Char.{Char, code}
use Prim.Native.String.{String}
use mathlib.Core.Path.{◌≡◌, refl}
use mathlib.Core.List.{List, [], ◌∷◌}
use nova_adapt.Base.Tests.{◌==◌, if◌then◌else◌}

-- The small letters, by the code points of their capitals.
abbrev capitals : List (ℕ × Char)
capitals =
    (65, "a")
    ∷ (66, "b")
    ∷ (67, "c")
    ∷ (68, "d")
    ∷ (69, "e")
    ∷ (70, "f")
    ∷ (71, "g")
    ∷ (72, "h")
    ∷ (73, "i")
    ∷ (74, "j")
    ∷ (75, "k")
    ∷ (76, "l")
    ∷ (77, "m")
    ∷ (78, "n")
    ∷ (79, "o")
    ∷ (80, "p")
    ∷ (81, "q")
    ∷ (82, "r")
    ∷ (83, "s")
    ∷ (84, "t")
    ∷ (85, "u")
    ∷ (86, "v")
    ∷ (87, "w")
    ∷ (88, "x")
    ∷ (89, "y")
    ∷ (90, "z")
    ∷ []

lower_from : List (ℕ × Char) → Char → Char
lower_from [] c = c
lower_from ((n, d) ∷ rest) c = if code c == n then d else lower_from rest c

unfoldable pub lower : String → String
unfolding lower_from
lower String.[] = String.[]
lower (String.◌∷◌ c s) = String.◌∷◌ (lower_from capitals c) (lower s)

lower_example : lower "SMS-7 é" ≡ "sms-7 é"
unfolding lower
lower_example = refl
