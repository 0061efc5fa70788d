-- ===== src/Requests/Idempotency/Keeps.antt =====
-- An entry stays as it is while its key is neither completed nor cleared and it has not expired.
use nova_adapt.Base.{
  ℕ, ◌+◌, ◌≤◌, String, Bool, true, false, ◌≡◌, refl, some, List, [], ◌∷◌, arith, All, string_eq,
  pair_eq, Eq,
}
use nova_adapt.Base.Json.{Value}
use nova_adapt.Base.Table
use nova_adapt.Base.Table.Where.{select-delete_where}
use nova_adapt.Requests.Idempotency.{
  Clock, Key, Entry, IdempotencyStore, entry_key, select, begin, complete, clear, cleanup_expired,
  prune_expired, fresh_entry, completed, verdict_on, is_expired,
}

-- A call of a method of the store, by any thread.
pub data Event : Type 0 where
  begins : Clock → Key → String → Event
  completes : ℕ → Key → ℕ → Value → Event
  clears : Key → Event
  prunes : Clock → Event

abbrev pub apply : Event → IdempotencyStore → IdempotencyStore
apply (begins c k hash) s = (begin c k hash s).1
apply (completes now k code payload) s = complete now k code payload s
apply (clears k) s = clear k s
apply (prunes c) s = (prune_expired c s).1

abbrev pub apply_all : List Event → IdempotencyStore → IdempotencyStore
apply_all [] s = s
apply_all (ev ∷ evs) s = apply_all evs (apply ev s)

abbrev pub same_key : Key → Key → Bool
same_key k j = Eq.beq pair_eq k j

-- The event leaves the key `k` alone, and happens at the time `limit` at the latest.
abbrev pub Spares : Key → ℕ → Event → Type 0
Spares k limit (begins c j hash) = c.wall ≤ limit
Spares k limit (completes now j code payload) = same_key j k ≡ false
Spares k limit (clears j) = same_key j k ≡ false
Spares k limit (prunes c) = c.wall ≤ limit

-- The row of the key `k` is `e`, in a store that keeps rows for `retention`.
pub record Holds (retention : ℕ) (k : Key) (e : Entry) (s : IdempotencyStore) : Type 0 where
  pub found : select k s ≡ some e
  pub kept_for : s.retention ≡ retention

module _ (retention : ℕ) (k : Key) (e : Entry) where
  pub cleanup-Holds :
      (force : Bool) (c : Clock) (s : IdempotencyStore)
      → c.wall ≤ e.updated_at + retention
      → Holds retention k e s
      → Holds retention k e (cleanup_expired force c s).1
  unfolding cleanup_expired
  cleanup-Holds force c s late h =
      let spared : is_expired c.wall s e ≡ false = ground (arith, h.kept_for) in
      let there = select-delete_where entry_key (is_expired c.wall s) k s.rows e h.found spared in
      record { found = ground (arith, there, h.found); kept_for = ground (arith, h.kept_for) }

  pub begin-Holds :
      (c : Clock) (j : Key) (hash : String) (s : IdempotencyStore)
      → c.wall ≤ e.updated_at + retention
      → Holds retention k e s
      → Holds retention k e (begin c j hash s).1
  unfolding begin
  begin-Holds c j hash s late h =
      let s1 = (cleanup_expired false c s).1 in
      let h1 = cleanup-Holds false c s late h in
      record {
        found =
            ground (
              arith,
              h1.found,
              Table.select-append entry_key k s1.rows (fresh_entry c.wall j hash),
            );
        kept_for = ground (arith, h1.kept_for);
      }

  apply-Holds :
      (ev : Event) (s : IdempotencyStore)
      → Spares k (e.updated_at + retention) ev
      → Holds retention k e s
      → Holds retention k e (apply ev s)
  unfolding complete clear prune_expired
  apply-Holds (begins c j hash) s late h = begin-Holds c j hash s late h
  apply-Holds (completes now j code payload) s other h = record {
    found = ground (
      arith,
      h.found,
      other,
      Table.select-update entry_key j k (completed now code payload) s.rows (λ x. refl),
    );
    kept_for = h.kept_for;
  }
  apply-Holds (clears j) s other h = record {
    found = ground (arith, h.found, other, Table.select-delete entry_key j k s.rows);
    kept_for = h.kept_for;
  }
  apply-Holds (prunes c) s late h = cleanup-Holds true c s late h

  pub apply_all-Holds :
      (evs : List Event) (s : IdempotencyStore)
      → All (Spares k (e.updated_at + retention)) evs
      → Holds retention k e s
      → Holds retention k e (apply_all evs s)
  apply_all-Holds [] s spare h = h
  apply_all-Holds (ev ∷ evs) s spare h =
      apply_all-Holds evs (apply ev s) spare.1 (apply-Holds ev s spare.0 h)

  -- What `begin` answers while the entry is there.
  pub begin-found :
      (c : Clock) (hash : String) (s : IdempotencyStore)
      → c.wall ≤ e.updated_at + retention
      → Holds retention k e s
      → (begin c k hash s).0 ≡ verdict_on hash e
  unfolding begin
  begin-found c hash s late h = let h1 = cleanup-Holds false c s late h in rw h1.found refl
