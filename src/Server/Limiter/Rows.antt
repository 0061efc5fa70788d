-- ===== src/Server/Limiter/Rows.antt =====
-- The rows of the limiter's clients after one of them is written.
use nova_adapt.Base.{
  String, ◌≡◌, refl, ap, subst, none, some, List, [], ◌∷◌, ◌++◌, string_eq, All, All-append,
  All-zip, All-imp, Bool-cases, Option-cases, inl, inr, arith,
}
use nova_adapt.Base.Table
use nova_adapt.Server.Limiter.{Client, name_of, put_client}

pub All-select :
    (P : Client → Type 0) (name : String) (rows : List Client) (c : Client)
    → All P rows
    → Table.select name_of name rows ≡ some c
    → P c
unfolding Table.select
All-select P name [] c h e = absurd (cc)
All-select P name (x ∷ rows) c h e = elim (Bool-cases (string_eq.beq x.name name)) [
  | inl found ↦ let e' : some x ≡ some c = rw found at e in subst P (cc) h.0
  | inr other ↦
      let e' : Table.select name_of name rows ≡ some c = rw other at e in
      All-select P name rows c h.1 e'
]

pub All-other :
    (name : String) (rows : List Client)
    → Table.select name_of name rows ≡ none
    → All (λ x. ¬ (x.name ≡ name)) rows
unfolding Table.select
All-other name [] h = tt
All-other name (x ∷ rows) h = elim (Bool-cases (string_eq.beq x.name name)) [
  | inl found ↦ let h' : some x ≡ none = rw found at h in absurd (cc)
  | inr other ↦
      let h' : Table.select name_of name rows ≡ none = rw other at h in
      (λ e. ground (arith, other, (string_eq.beq_iff x.name name).1 e), All-other name rows h')
]

pub All-update :
    (P : Client → Type 0) (c : Client) (rows : List Client)
    → All (λ x. ¬ (x.name ≡ c.name) → P x) rows
    → P c
    → All P (Table.update name_of c.name (λ _. c) rows)
unfolding Table.update
All-update P c [] h new = tt
All-update P c (x ∷ rows) h new = elim (Bool-cases (string_eq.beq x.name c.name)) [
  | inl same ↦ rw same (new, All-update P c rows h.1 new)
  | inr other ↦ rw other (
    h.0 (λ e. ground (arith, other, (string_eq.beq_iff x.name c.name).1 e)),
    All-update P c rows h.1 new,
  )
]

-- Each row is kept, or is the new one.
pub All-put_client :
    (P : Client → Type 0) (c : Client) (rows : List Client)
    → All (λ x. ¬ (x.name ≡ c.name) → P x) rows
    → P c
    → All P (put_client c rows)
unfolding Table.upsert
All-put_client P c rows h new = elim (Option-cases (Table.select name_of c.name rows)) [
  | inl free ↦ rw free (
      All-append P rows (c ∷ [])
        (All-imp rows (λ x both. both.1 both.0)
          (All-zip (λ x. ¬ (x.name ≡ c.name)) (λ x. ¬ (x.name ≡ c.name) → P x) rows
            (All-other c.name rows free) h))
        (new, tt))
  | inr (old, taken) ↦ rw taken (All-update P c rows h new)
]

pub select-replace :
    (name : String) (c : Client) (rows : List Client)
    → Table.select name_of name (Table.update name_of c.name (λ _. c) rows) ≡ none
    → Table.select name_of name rows ≡ none
unfolding Table.select Table.update
select-replace name c [] h = refl
select-replace name c (x ∷ rows) h = ground (
  arith,
  select-replace name c rows,
  string_eq.beq_iff x.name c.name,
  string_eq.beq_iff x.name name,
  string_eq.beq_iff c.name name,
)

pub select-put_client :
    (name : String) (c : Client) (rows : List Client)
    → Table.select name_of name (put_client c rows) ≡ none
    → (¬ (c.name ≡ name)) × (Table.select name_of name rows ≡ none)
unfolding Table.upsert
select-put_client name c rows h = elim (Option-cases (Table.select name_of c.name rows)) [
  | inl free ↦
      let h' : Table.select name_of name (rows ++ c ∷ []) ≡ none = rw free at h in
      (
        λ e.
            ground
              (arith, h', Table.select-append name_of name rows c, string_eq.beq_iff c.name name),
        ground (arith, h', Table.select-append name_of name rows c),
      )
  | inr (old, taken) ↦
      let h' : Table.select name_of name (Table.update name_of c.name (λ _. c) rows) ≡ none =
        rw taken at h in
      let gone = select-replace name c rows h' in
      (λ e. ground (arith, taken, gone, ap (λ n. Table.select name_of n rows) e), gone)
]
