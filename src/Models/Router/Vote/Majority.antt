-- ===== src/Models/Router/Vote/Majority.antt =====
-- The vote picks a text that most of the outputs agree with.
use nova_adapt.Base.{
  ℕ, ◌≤◌, ◌<◌, String, false, ◌≡◌, refl, sym, ap, ◌∙◌, some, List, [], ◌∷◌, map, if◌then◌else◌,
  arith, All, str_eq, eq_iff, Bool-cases, inl, inr, count, find, get_or, ltb,
}
use nova_adapt.Models.Router.Vote.{most_common, most_common_from, majority_vote}

module _ (texts : List String) where
  abbrev votes : String → ℕ
  votes t = count (str_eq t) texts

  better :
      (best : String × ℕ) (t : String)
      → let b : String × ℕ = if ltb best.1 (votes t) then (t, votes t) else best in
        (best.1 ≤ b.1) × (votes t ≤ b.1)
  better best t = elim (Bool-cases (ltb best.1 (votes t))) [
    | inl more ↦ rw more (ground arith, ground arith)
    | inr kept ↦ rw kept (ground arith, ground arith)
  ]

  better-votes :
      (best : String × ℕ) (t : String)
      → best.1 ≡ votes best.0
      → let b : String × ℕ = if ltb best.1 (votes t) then (t, votes t) else best in b.1 ≡ votes b.0
  better-votes best t h = elim (Bool-cases (ltb best.1 (votes t))) [
    | inl more ↦ rw more refl
    | inr kept ↦ rw kept h
  ]

  most_common_from-best :
      (best : String × ℕ) (rest : List String)
      → best.1 ≡ votes best.0
      → let w = most_common_from texts best rest in
        (w.1 ≡ votes w.0) × (best.1 ≤ w.1) × All (λ t. votes t ≤ w.1) rest
  unfolding most_common_from
  most_common_from-best best [] h = (h, omega arith, tt)
  most_common_from-best best (t ∷ rest) h =
      let best' : String × ℕ = if ltb best.1 (votes t) then (t, votes t) else best in
      let (own, least, others) = most_common_from-best best' rest (better-votes best t h) in
      let grown = better best t in
      (own, omega (arith, grown.0, least), (omega (arith, grown.1, least), others))

All-of_map :
    (P : String → Type 0) (f : String → String) (xs : List String)
    → All P (map f xs)
    → All (λ x. P (f x)) xs
All-of_map P f [] h = tt
All-of_map P f (x ∷ xs) h = (h.0, All-of_map P f xs h.1)

-- A text that occurs is found.
find-count :
    (f : String → String) (w : String) (xs : List String)
    → 0 < count (str_eq w) (map f xs)
    → (x : String) × (find (λ item. str_eq (f item) w) xs ≡ some x) × (f x ≡ w)
find-count f w [] h = absurd (omega arith)
find-count f w (x ∷ xs) h = elim (Bool-cases (str_eq (f x) w)) [
  | inl same ↦ rw same (x, refl, (eq_iff (f x) w).0 same)
  | inr other ↦
      let here : str_eq w (f x) ≡ false = ground (arith, eq_iff (f x) w, eq_iff w (f x)) in
      let later : 0 < count (str_eq w) (map f xs) = rw here at h in
      rw other (find-count f w xs later)
]

module _ (normalize : String → String) (output : String) (outputs : List String) where
  abbrev all_outputs : List String
  all_outputs = output ∷ outputs

  -- How many outputs say the same as a text, up to normalization.
  abbrev pub agreeing : String → ℕ
  agreeing text = count (str_eq (normalize text)) (map normalize all_outputs)

  -- The text that wins the vote agrees with as many outputs as it is said to, and no output agrees
  -- with more.
  pub majority_wins :
      let (chosen, n) = majority_vote normalize output outputs in
      (n ≡ agreeing chosen) × All (λ other. agreeing other ≤ n) all_outputs
  unfolding majority_vote most_common
  majority_wins =
      let texts = map normalize all_outputs in
      let first_text = normalize output in
      let (own, least, others) =
        most_common_from-best texts (first_text, votes texts first_text) (map normalize outputs)
          refl in
      let some_vote : 0 < votes texts first_text = ground (arith, eq_iff first_text first_text) in
      let w = most_common_from texts (first_text, votes texts first_text) (map normalize outputs) in
      let (x, found, agrees) =
        find-count normalize w.0 all_outputs (ground (arith, own, least, some_vote)) in
      (
        own ∙ ap (votes texts) (sym agrees ∙ ap (λ o. normalize (get_or output o)) (sym found)),
        (least, All-of_map (λ t. votes texts t ≤ w.1) normalize outputs others),
      )
