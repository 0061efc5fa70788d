-- ===== src/Server/Limiter/Windows.antt =====
-- Which of the stored times a window may see.
use nova_adapt.Base.{
  ℕ, ◌+◌, ◌≤◌, ◌<◌, Bool, ◌≡◌, refl, List, [], ◌∷◌, ◌++◌, ltb, leb, string_eq, length, count, All,
  Bool-cases, inl, inr, arith,
}
use nova_adapt.Server.Limiter.{Client, drop_old}

-- The time lies in the window that ends at `k`.
abbrev pub in_window : ℕ → ℕ → ℕ → Bool
in_window window k t = leb k (t + window)

module _ (window burst : ℕ) where
  -- The stored times hold what was let through, as far as a window from `now` on may see it.
  abbrev pub Covers : ℕ → List ℕ → List ℕ → Type 0
  Covers now log ts =
      (k : ℕ) → now ≤ k → count (in_window window k) log ≤ count (in_window window k) ts

  abbrev pub IsGood : ℕ → List ℕ → Client → Type 0
  IsGood now log c =
      Covers now log c.timestamps
      × (length c.timestamps ≤ burst)
      × All (λ t. t ≤ c.last_seen) c.timestamps
      × (c.last_seen ≤ now)

  pub drop_old-Covers :
      (now : ℕ) (log ts : List ℕ) → Covers now log ts → Covers now log (drop_old now window ts)
  drop_old-Covers now log [] h = h
  drop_old-Covers now log (t ∷ ts) h = elim (Bool-cases (ltb (t + window) now)) [
    | inl old ↦ rw (old, drop_old) (drop_old-Covers now log ts (λ k le. ground (arith, h k le)))
    | inr kept ↦ rw (kept, drop_old) h
  ]

  pub length-drop_old : (now : ℕ) (ts : List ℕ) → length (drop_old now window ts) ≤ length ts
  length-drop_old now [] = omega arith
  length-drop_old now (t ∷ ts) = elim (Bool-cases (ltb (t + window) now)) [
    | inl old ↦ rw (old, drop_old) (omega (arith, length-drop_old now ts))
    | inr kept ↦ rw (kept, drop_old) (omega arith)
  ]

  pub All-drop_old :
      (P : ℕ → Type 0) (now : ℕ) (ts : List ℕ) → All P ts → All P (drop_old now window ts)
  All-drop_old P now [] h = tt
  All-drop_old P now (t ∷ ts) h = elim (Bool-cases (ltb (t + window) now)) [
    | inl old ↦ rw (old, drop_old) (All-drop_old P now ts h.1)
    | inr kept ↦ rw (kept, drop_old) h
  ]

  pub count-append :
      (p : ℕ → Bool) (xs : List ℕ) (x : ℕ) → count p (xs ++ x ∷ []) ≡ count p xs + count p (x ∷ [])
  count-append p [] x = omega arith
  count-append p (y ∷ xs) x = ground (arith, count-append p xs x)

  pub count-length : (p : ℕ → Bool) (xs : List ℕ) → count p xs ≤ length xs
  count-length p [] = omega arith
  count-length p (x ∷ xs) = ground (arith, count-length p xs)

  pub count-none :
      (k : ℕ) (xs : List ℕ) → All (λ t. t + window < k) xs → count (in_window window k) xs ≡ 0
  count-none k [] h = refl
  count-none k (x ∷ xs) h = ground (arith, count-none k xs h.1)

  pub Covers-later : (now k : ℕ) (log ts : List ℕ) → now ≤ k → Covers now log ts → Covers k log ts
  Covers-later now k log ts le h j le' = h j (omega arith)
