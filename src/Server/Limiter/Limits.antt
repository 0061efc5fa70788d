-- ===== src/Server/Limiter/Limits.antt =====
-- How often a client is let through.
use nova_adapt.Base.{
  ℕ, ◌+◌, ◌≤◌, ◌<◌, String, true, false, not, ◌≡◌, refl, sym, subst, ◌∙◌, none, List, [], ◌∷◌, ◌++◌,
  leb, str_eq, string_eq, length, count, All, All-append, All-imp, All-filter_self, Bool-cases,
  Option-cases, inl, inr, arith, length-append, max, if◌then◌else◌, ◌&&◌,
}
use nova_adapt.Base.Text.{strip, or_else}
use nova_adapt.Base.Table
use nova_adapt.Base.Table.Where.{delete_where, select-delete_where}
use nova_adapt.Server.Limiter.{
  Client, Limiter, make_limiter, name_of, is_stale, drop_old, seen_before, put_client, allow,
}
use nova_adapt.Server.Limiter.Windows.{
  in_window, Covers, IsGood, drop_old-Covers, length-drop_old, All-drop_old, count-append,
  count-length, count-none, Covers-later,
}
use nova_adapt.Server.Limiter.Rows.{All-select, All-put_client, select-put_client}

leb-false : (a b : ℕ) → leb a b ≡ false → b < a
leb-false a b h = ground arith

-- The key under which the limiter counts a client.
abbrev pub client_name : String → String
client_name key = or_else (strip (or_else key "unknown")) "unknown"

-- The times at which the client `name` was let through, after a call of `allow`.
abbrev pub noted : String → ℕ → String → Limiter → List ℕ → List ℕ
noted name now key l log =
    if (allow now key l).0 && str_eq (client_name key) name then log ++ now ∷ [] else log

-- Times that do not go back.
abbrev pub IsOrdered : ℕ → List (ℕ × String) → Type 0
IsOrdered now [] = Unit
IsOrdered now ((t, key) ∷ calls) = (now ≤ t) × IsOrdered t calls

abbrev pub last_time : ℕ → List (ℕ × String) → ℕ
last_time now [] = now
last_time now ((t, key) ∷ calls) = last_time t calls

-- The times at which the client `name` was let through, by calls at given times under given keys.
abbrev pub through : String → List (ℕ × String) → List ℕ → Limiter → List ℕ
through name [] log l = log
through name ((now, key) ∷ calls) log l =
    through name calls (noted name now key l log) (allow now key l).1

module _ (window burst idle_ttl : ℕ) (short : window ≤ idle_ttl) (name : String) where
  -- The rows of the client are good; without a row, nothing was let through that a window may see.
  abbrev IsFair : ℕ → List ℕ → List Client → Type 0
  IsFair now log rows =
      All (λ c. c.name ≡ name → IsGood window burst now log c) rows
      × (Table.select name_of name rows ≡ none → Covers window burst now log [])

  IsGood-later :
      (now k : ℕ) (log : List ℕ) (c : Client)
      → now ≤ k
      → IsGood window burst now log c
      → IsGood window burst k log c
  IsGood-later now k log c le h =
      (Covers-later window burst now k log c.timestamps le h.0, h.1, h.2, omega (arith, h.3, le))

  IsGood-stale :
      (now : ℕ) (log : List ℕ) (c : Client)
      → is_stale now idle_ttl c ≡ true
      → IsGood window burst now log c
      → Covers window burst now log []
  IsGood-stale now log c stale h k le = omega (
    arith,
    h.0 k le,
    count-none window burst k c.timestamps (All-imp c.timestamps (λ t b. ground arith) h.2),
  )

  IsFair-delete :
      (now k : ℕ) (log : List ℕ) (rows : List Client)
      → now ≤ k
      → IsFair now log rows
      → IsFair k log (delete_where (is_stale k idle_ttl) rows)
  IsFair-delete now k log rows le h = (
    All-filter_self (λ c. c.name ≡ name → IsGood window burst k log c)
        (λ c. not (is_stale k idle_ttl c)) rows
        (All-imp rows (λ c good e. IsGood-later now k log c le (good e)) h.0),
    λ gone. elim (Option-cases (Table.select name_of name rows)) [
      | inl free ↦ Covers-later window burst now k log [] le (h.1 free)
      | inr (c, found) ↦
          let good =
            All-select (λ c. c.name ≡ name → IsGood window burst now log c) name rows c h.0 found
              (Table.key-select name_of name rows c found) in
          elim (Bool-cases (is_stale k idle_ttl c)) [
            | inl stale ↦ IsGood-stale k log c stale (IsGood-later now k log c le good)
            | inr fresh ↦
                let kept =
                  select-delete_where name_of (is_stale k idle_ttl) name rows c found fresh in
                absurd (cc)
          ]
    ],
  )

  IsFair-put :
      (now : ℕ) (log log' : List ℕ) (c : Client) (rows : List Client)
      → IsFair now log rows
      → ((c.name ≡ name) → IsGood window burst now log' c)
      → (¬ (c.name ≡ name) → log' ≡ log)
      → IsFair now log' (put_client c rows)
  IsFair-put now log log' c rows h good same = (
    All-put_client (λ x. x.name ≡ name → IsGood window burst now log' x) c rows
        (All-imp rows
          (λ x g ne e.
            subst (λ l. IsGood window burst now l x) (sym (same (λ e'. ne (e ∙ sym e')))) (g e))
          h.0)
        good,
    λ gone.
        let (other, free) = select-put_client name c rows gone in
        subst (λ l. Covers window burst now l []) (sym (same other)) (h.1 free),
  )

  -- What is stored of a client, as a row.
  IsGood-seen :
      (now : ℕ) (log : List ℕ) (rows : List Client)
      → IsFair now log rows
      → Covers window burst now log (seen_before (Table.select name_of name rows))
        × (length (seen_before (Table.select name_of name rows)) ≤ burst)
        × All (λ t. t ≤ now) (seen_before (Table.select name_of name rows))
  IsGood-seen now log rows h = elim (Option-cases (Table.select name_of name rows)) [
    | inl free ↦ rw free (h.1 free, omega arith, tt)
    | inr (c, found) ↦
        let good =
          All-select (λ c. c.name ≡ name → IsGood window burst now log c) name rows c h.0 found
            (Table.key-select name_of name rows c found) in
        rw found (good.0, good.1, All-imp c.timestamps (λ t le. omega (arith, good.3, le)) good.2)
  ]

  IsGood-recent :
      (now : ℕ) (log : List ℕ) (rows : List Client) (m : String)
      → IsFair now log rows
      → m ≡ name
      → let recent = drop_old now window (seen_before (Table.select name_of m rows)) in
        Covers window burst now log recent × (length recent ≤ burst) × All (λ t. t ≤ now) recent
  IsGood-recent now log rows m h e =
      let ts = seen_before (Table.select name_of name rows) in
      let seen = IsGood-seen now log rows h in
      subst
        (λ n.
          let recent = drop_old now window (seen_before (Table.select name_of n rows)) in
          Covers window burst now log recent × (length recent ≤ burst) × All (λ t. t ≤ now) recent)
        (sym e)
        (
          drop_old-Covers window burst now log ts seen.0,
          omega (arith, seen.1, length-drop_old window burst now ts),
          All-drop_old window burst (λ t. t ≤ now) now ts seen.2,
        )

  Covers-append :
      (now t : ℕ) (log ts : List ℕ)
      → Covers window burst now log ts
      → Covers window burst now (log ++ t ∷ []) (ts ++ t ∷ [])
  Covers-append now t log ts h k le =
      let p = in_window window k in
      omega (arith, h k le, count-append window burst p log t, count-append window burst p ts t)

  abbrev limiter : List Client → Limiter
  limiter rows = record { burst = burst; window = window; idle_ttl = idle_ttl; clients = rows }

  IsFair-allow :
      (now k : ℕ) (key : String) (log : List ℕ) (rows : List Client)
      → now ≤ k
      → IsFair now log rows
      → (rows' : List Client) × ((allow k key (limiter rows)).1 ≡ limiter rows')
        × IsFair k (noted name k key (limiter rows) log) rows'
  unfolding allow
  IsFair-allow now k key log rows le h =
      let m = client_name key in
      let clients = delete_where (is_stale k idle_ttl) rows in
      let fair = IsFair-delete now k log rows le h in
      let ts = seen_before (Table.select name_of m clients) in
      let recent = drop_old k window ts in
      elim (Bool-cases (leb burst (length recent))) [
        | inl full ↦
            let c : Client = record { name = m; timestamps = recent; last_seen = k } in
            rw (full, allow)
              (
                put_client c clients,
                refl,
                IsFair-put k log log c clients fair
                    (λ e.
                      let r = IsGood-recent k log clients m fair e in (r.0, r.1, r.2, omega arith))
                    (λ ne. refl),
              )
        | inr free ↦
            let c : Client = record { name = m; timestamps = recent ++ k ∷ []; last_seen = k } in
            elim (Bool-cases (str_eq m name)) [
              | inl same ↦
                  rw (free, same, allow)
                    (
                      put_client c clients,
                      refl,
                      IsFair-put k log (log ++ k ∷ []) c clients fair
                          (λ e.
                            let r = IsGood-recent k log clients m fair e in
                            (
                              Covers-append k k log recent r.0,
                              omega (
                                arith,
                                length-append recent (k ∷ []),
                                leb-false burst (length recent) free,
                              ),
                              All-append (λ t. t ≤ k) recent (k ∷ []) r.2 (omega arith, tt),
                              omega arith,
                            ))
                          (λ ne. absurd (ne ((string_eq.beq_iff m name).0 same))),
                    )
              | inr other ↦
                  rw (free, other, allow)
                    (
                      put_client c clients,
                      refl,
                      IsFair-put k log log c clients fair
                          (λ e. ground (arith, other, (string_eq.beq_iff m name).1 e)) (λ ne. refl),
                    )
            ]
      ]

  through-bounded :
      (calls : List (ℕ × String)) (now : ℕ) (log : List ℕ) (rows : List Client)
      → IsOrdered now calls
      → IsFair now log rows
      → (k : ℕ) → last_time now calls ≤ k
      → count (in_window window k) (through name calls log (limiter rows)) ≤ burst
  through-bounded [] now log rows ordered h k le =
      let seen = IsGood-seen now log rows h in
      let ts = seen_before (Table.select name_of name rows) in
      omega (arith, seen.0 k le, seen.1, count-length window burst (in_window window k) ts)
  through-bounded ((t, key) ∷ calls) now log rows ordered h k le =
      let (rows', e, fair) = IsFair-allow now t key log rows ordered.0 h in
      let log' = noted name t key (limiter rows) log in
      subst (λ l. count (in_window window k) (through name calls log' l) ≤ burst) (sym e)
        (through-bounded calls t log' rows' ordered.1 fair k le)

-- Whatever clients call `allow` of a new limiter, at times that do not go back, and whichever of them are
-- forgotten in between: if idle clients are kept for at least one window, then of the requests that are
-- counted under a name, no more than the burst, and at least 1, are let through within any window that
-- ends after the last call.
pub allowed_bounded :
    (name : String) (minute burst window idle_ttl : ℕ) (calls : List (ℕ × String)) (k : ℕ)
    → window ≤ max minute idle_ttl
    → IsOrdered 0 calls
    → last_time 0 calls ≤ k
    → count
        (λ t. leb k (t + window))
        (through name calls [] (make_limiter minute burst window idle_ttl))
      ≤ max 1 burst
allowed_bounded name minute burst window idle_ttl calls k short ordered le =
    through-bounded window (max 1 burst) (max minute idle_ttl) short name calls 0 [] [] ordered
      (tt, λ free k' le'. omega arith) k le
