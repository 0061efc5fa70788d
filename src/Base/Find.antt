-- ===== src/Base/Find.antt =====
-- Python's `w in s` and `" ".join(…)`.
use Prim.Native.Char.{Char, code}
use Prim.Native.String.{String, [], ◌∷◌}
use Prim.Native.String
use Prim.Native.String.append
use mathlib.Core.Path.{◌≡◌, refl}
use mathlib.Core.Bool.{Bool, true, false, ◌&&◌, ◌||◌}
use mathlib.Core.List.{List}
use native.Mathlib.Omega.{arith}
use nova_adapt.Base.Tests.{◌==◌, if◌then◌else◌}
use nova_adapt.Base.Text.{is_empty}
use text.Mathlib.Text.{◌==◌ as str_eq}

-- `s.startswith(w)`
unfoldable pub starts_with : String → String → Bool
starts_with [] s = true
starts_with (c ∷ w) [] = false
starts_with (c ∷ w) (d ∷ s) = code c == code d && starts_with w s

-- `str.endswith`
unfoldable pub ends_with : String → String → Bool
ends_with w [] = is_empty w
ends_with w (c ∷ s) = str_eq w (c ∷ s) || ends_with w s

-- `w in s`
unfoldable pub occurs_in : String → String → Bool
unfolding starts_with
occurs_in w [] = is_empty w
occurs_in w (d ∷ s) = starts_with w (d ∷ s) || occurs_in w s

-- `" ".join(part for part in parts if part)`
unfoldable pub join : List String → String
join List.[] = ""
join (List.◌∷◌ part parts) =
    let rest = join parts in
    if is_empty part
    then rest
    else if is_empty rest
    then part
    else String.◌++◌ part (String.◌++◌ " " rest)

-- The clauses of the native append.
append_nil : (t : String) → String.◌++◌ [] t ≡ t
append_nil t = append.nil t

append_cons : (c : Char) (s t : String) → String.◌++◌ (c ∷ s) t ≡ c ∷ String.◌++◌ s t
append_cons c s t = append.cons c s t

starts_with-append :
    (w s t : String) → starts_with w s ≡ true → starts_with w (String.◌++◌ s t) ≡ true
unfolding starts_with
starts_with-append [] s t h = refl
starts_with-append (c ∷ w) [] t h = ground arith
starts_with-append (c ∷ w) (d ∷ s) t h =
    rw (append_cons d s t) (ground (arith, starts_with-append w s t))

pub occurs_in-empty : (w s : String) → is_empty w ≡ true → occurs_in w s ≡ true
unfolding occurs_in starts_with
occurs_in-empty [] [] h = refl
occurs_in-empty [] (c ∷ s) h = refl
occurs_in-empty (c ∷ w) s h = ground arith

-- Only the empty text is in the empty text.
pub occurs_in-blank :
    (w s t : String) → is_empty s ≡ true → occurs_in w s ≡ true → occurs_in w t ≡ true
unfolding occurs_in
occurs_in-blank w [] t h k = occurs_in-empty w t k
occurs_in-blank w (c ∷ s) t h k = ground arith

pub occurs_in-append :
    (w s t : String) → occurs_in w s ≡ true → occurs_in w (String.◌++◌ s t) ≡ true
unfolding occurs_in
occurs_in-append w [] t h = rw (append_nil t) (occurs_in-empty w t h)
occurs_in-append w (d ∷ s) t h =
    let starts : starts_with w (d ∷ s) ≡ true → starts_with w (d ∷ String.◌++◌ s t) ≡ true =
      rw (append_cons d s t) at (starts_with-append w (d ∷ s) t) in
    rw (append_cons d s t) (ground (arith, occurs_in-append w s t, starts))

pub occurs_in-behind :
    (w s t : String) → occurs_in w t ≡ true → occurs_in w (String.◌++◌ s t) ≡ true
unfolding occurs_in
occurs_in-behind w [] t h = rw (append_nil t) h
occurs_in-behind w (d ∷ s) t h = rw (append_cons d s t) (ground (arith, occurs_in-behind w s t h))

-- The text without as many characters as `w` has.
drop : String → String → String
drop [] s = s
drop (c ∷ w) [] = []
drop (c ∷ w) (d ∷ s) = drop w s

-- `s.removeprefix(w)`
unfoldable pub remove_prefix : String → String → String
unfolding drop
remove_prefix w s = if starts_with w s then drop w s else s
