-- ===== src/Base/Json.antt =====
-- JSON values as Python holds them. `Fields` is a dict with text keys, in the order of insertion.
-- Numbers are naturals: no file of this development computes with a negative or a fractional one.
use Prim.Native.Nat.{ℕ}
use Prim.Native.String.{String}
use mathlib.Core.Path.{◌≡◌, refl}
use mathlib.Core.Bool.{Bool, true, false, not}
use mathlib.Core.Option.{Option, none, some}
use native.Mathlib.Omega.{arith}
use text.Mathlib.Text.{◌==◌ as str_eq}
use text.Mathlib.TextEquality.{eq_iff}
use nova_adapt.Base.Tests.{if◌then◌else◌, is_some, ◌==◌}
use nova_adapt.Base.Text.{is_empty}

mutual
  -- A dict.
  pub data Fields : Type 0 where
    field : String → Value → Fields → Fields
    end : Fields

  pub data Value : Type 0 where
    str : String → Value
    obj : Fields → Value
    arr : Items → Value
    num : ℕ → Value
    bool : Bool → Value
    null : Value

  -- A list.
  pub data Items : Type 0 where
    cons : Value → Items → Items
    nil : Items

-- `bool(v)`
abbrev pub truthy : Value → Bool
truthy null = false
truthy (bool b) = b
truthy (num n) = not (n == 0)
truthy (str s) = not (is_empty s)
truthy (arr nil) = false
truthy (arr (cons v vs)) = true
truthy (obj end) = false
truthy (obj (field k v d)) = true

-- `d.get(k)`, before a default is put in
unfoldable pub get : String → Fields → Option Value
get k end = none
get k (field j v d) = if str_eq j k then some v else get k d

-- `d[k] = v`: in place, or at the end
unfoldable pub put : String → Value → Fields → Fields
put k v end = field k v end
put k v (field j w d) = if str_eq j k then field k v d else field j w (put k v d)

-- `d.setdefault(k, v)`, for its effect on `d`
unfoldable pub set_default : String → Value → Fields → Fields
set_default k v d = if is_some (get k d) then d else put k v d

pub get-put :
    (k j : String) (v : Value) (d : Fields)
    → get j (put k v d) ≡ (if str_eq k j then some v else get j d)
unfolding get put
get-put k j v end = refl
get-put k j v (field i w d) = ground (arith, get-put k j v d, eq_iff i k, eq_iff i j, eq_iff k j)
