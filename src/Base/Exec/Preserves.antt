-- ===== src/Base/Exec/Preserves.antt =====
-- What a method keeps, however it ends.
use mathlib.Core.Path.{◌≡◌, refl, ap}
use mathlib.Core.Logic.{inl, inr}
use mathlib.Core.Bool.{Bool, true, false}
use nova_adapt.Base.Exec.{Exec, ok, raised, Error, Result-cases, ◌>>=◌, raise_if}

module _ {κ} {S : Type 0} (P : S → Type κ) where
  -- Where `P` holds before, it holds afterwards, also if the method raises.
  abbrev pub Preserves : {A : Type 0} → Exec S A → Type κ
  Preserves m = (s : S) → P s → P (m s).1

  pub Preserves-bind :
      {A B : Type 0} (m : Exec S A) (f : A → Exec S B)
      → Preserves m
      → ((a : A) → Preserves (f a))
      → Preserves (m >>= f)
  Preserves-bind m f hm hf s h = elim (Result-cases (m s).0) [
    | inl (a, e) ↦ rw (e, ◌>>=◌) (hf a (m s).1 (hm s h))
    | inr (x, e) ↦ rw (e, ◌>>=◌) (hm s h)
  ]

  pub Preserves-raise_if : (b : Bool) (e : Error) → Preserves (raise_if b e)
  Preserves-raise_if true e s h = h
  Preserves-raise_if false e s h = h

  -- What holds after the first method, by how it ended, holds after both.
  pub after-bind :
      {A B : Type 0} (m : Exec S A) (f : A → Exec S B) (s : S)
      → ((a : A) → (m s).0 ≡ ok a → P (f a (m s).1).1)
      → ((e : Error) → (m s).0 ≡ raised e → P (m s).1)
      → P ((m >>= f) s).1
  after-bind m f s good bad = elim (Result-cases (m s).0) [
    | inl (a, e) ↦ rw (e, ◌>>=◌) (good a e)
    | inr (x, e) ↦ rw (e, ◌>>=◌) (bad x e)
  ]

  -- A branch on a test.
  pub Preserves-elim :
      {A : Type 0} (b : Bool) (m k : Exec S A)
      → (b ≡ true → Preserves m)
      → (b ≡ false → Preserves k)
      → Preserves (elim b [ true ↦ m | false ↦ k ])
  Preserves-elim true m k h n = h refl
  Preserves-elim false m k h n = n refl

-- An error ends a chain.
pub bind_raised :
    {S A B : Type 0} (m : Exec S A) (f : A → Exec S B) (s : S) (e : Error)
    → (m s).0 ≡ raised e
    → (m >>= f) s ≡ (raised e, (m s).1)
bind_raised m f s e h = rw (h, ◌>>=◌) refl

pub bind_ok :
    {S A B : Type 0} (m : Exec S A) (f : A → Exec S B) (s s1 : S) (a : A)
    → m s ≡ (ok a, s1)
    → (m >>= f) s ≡ f a s1
bind_ok m f s s1 a h = ap (λ x. elim x.0 [ ok a ↦ f a x.1 | raised e ↦ (raised e, x.1) ]) h
