-- ===== src/Base/Text.antt =====
-- What the source uses of Python's `str`: `strip`, over the characters that `str.isspace` accepts.
use Prim.Native.Char.{Char, code}
use Prim.Native.String.{String, [], ◌∷◌}
use mathlib.Core.Path.{◌≡◌, refl, ap}
use mathlib.Core.Logic.{inl, inr}
use mathlib.Core.Bool.{Bool, true, false, ◌&&◌, ◌||◌}
use Prim.Native.Nat.{ℕ}
use nova_adapt.Base.Tests.{◌==◌, leb, if◌then◌else◌, Bool-cases}

-- `c.isspace()`, by the code point.
unfoldable pub is_space : ℕ → Bool
is_space c =
    (leb 9 c && leb c 13)
    || (leb 28 c && leb c 32)
    || c == 133
    || c == 160
    || c == 5760
    || (leb 8192 c && leb c 8202)
    || c == 8232
    || c == 8233
    || c == 8239
    || c == 8287
    || c == 12288

-- `not s`
abbrev pub is_empty : String → Bool
is_empty [] = true
is_empty (c ∷ s) = false

lstrip : String → String
unfolding is_space
lstrip [] = []
lstrip (c ∷ s) = if is_space (code c) then lstrip s else c ∷ s

-- A blank is dropped where nothing is left behind it.
put_unless_trailing : Char → String → String
unfolding is_space
put_unless_trailing c [] = if is_space (code c) then [] else c ∷ []
put_unless_trailing c (d ∷ s) = c ∷ d ∷ s

rstrip : String → String
unfolding put_unless_trailing
rstrip [] = []
rstrip (c ∷ s) = put_unless_trailing c (rstrip s)

unfoldable pub strip : String → String
unfolding lstrip rstrip
strip s = rstrip (lstrip s)

-- `s or d`
abbrev pub or_else : String → String → String
or_else s d = if is_empty s then d else s

-- A text that does not begin with a blank.
abbrev Starts : String → Type 0
Starts [] = Unit
Starts (c ∷ s) = is_space (code c) ≡ false

lstrip-Starts : (s : String) → Starts (lstrip s)
unfolding lstrip
lstrip-Starts [] = tt
lstrip-Starts (c ∷ s) = elim (Bool-cases (is_space (code c))) [
  | inl blank ↦ rw blank (lstrip-Starts s)
  | inr other ↦ rw other other
]

-- On a text that begins with another character, `lstrip` does nothing.
lstrip-eq_self : (s : String) → Starts s → lstrip s ≡ s
unfolding lstrip
lstrip-eq_self [] h = refl
lstrip-eq_self (c ∷ s) h = rw h

put_unless_trailing-other :
    (c : Char) (s : String) → is_space (code c) ≡ false → put_unless_trailing c s ≡ c ∷ s
unfolding put_unless_trailing
put_unless_trailing-other c [] h = rw h
put_unless_trailing-other c (d ∷ s) h = refl

rstrip-Starts : (s : String) → Starts s → Starts (rstrip s)
unfolding rstrip
rstrip-Starts [] h = tt
rstrip-Starts (c ∷ s) h = rw (put_unless_trailing-other c (rstrip s) h) h

rstrip-put :
    (c : Char) (s : String)
    → rstrip s ≡ s
    → rstrip (put_unless_trailing c s) ≡ put_unless_trailing c s
unfolding rstrip
rstrip-put c [] h = elim (Bool-cases (is_space (code c))) [
  | inl blank ↦ rw blank
  | inr other ↦ rw other (rw other)
]
rstrip-put c (d ∷ s) h = ap (put_unless_trailing c) h

rstrip_idem : (s : String) → rstrip (rstrip s) ≡ rstrip s
unfolding rstrip
rstrip_idem [] = refl
rstrip_idem (c ∷ s) = rstrip-put c (rstrip s) (rstrip_idem s)

-- Stripping twice is stripping once.
pub strip_idem : (s : String) → strip (strip s) ≡ strip s
unfolding strip
strip_idem s =
    rw (lstrip-eq_self (rstrip (lstrip s)) (rstrip-Starts (lstrip s) (lstrip-Starts s)))
      (rstrip_idem (lstrip s))

strip_example : strip "  a b\n" ≡ "a b"
unfolding strip
strip_example = refl

-- A text that begins with another character than a blank does not strip to nothing.
pub is_empty-strip :
    (c : Char) (s : String) → is_space (code c) ≡ false → is_empty (strip (c ∷ s)) ≡ false
unfolding strip
is_empty-strip c s h = rw h (rw (put_unless_trailing-other c (rstrip s) h))
