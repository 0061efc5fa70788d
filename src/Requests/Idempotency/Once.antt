-- ===== src/Requests/Idempotency/Once.antt =====
-- What other callers of the store see between `begin` and `complete`, and afterwards.
use nova_adapt.Base.{
  ℕ, ◌+◌, ◌≤◌, ◌<◌, String, false, ◌≡◌, refl, ◌∙◌, List, if◌then◌else◌, arith, All, string_eq,
  pair_eq, inl, inr, beq_refl, str_eq, Option-cases,
}
use nova_adapt.Base.Json.{Value}
use nova_adapt.Base.Table
use nova_adapt.Requests.Idempotency.{
  Clock, Key, Entry, IdempotencyStore, new, conflict, in_progress, replay, entry_key, select, begin,
  begin_on, complete, fresh_entry, completed, cleanup_expired,
}
use nova_adapt.Requests.Idempotency.Keeps.{
  Event, Spares, apply_all, Holds, apply_all-Holds, begin-found,
}

module _ (c : Clock) (k : Key) (hash : String) (s : IdempotencyStore) where
  -- After `begin` said `new`, the row is there.
  pub begin-new :
      (begin c k hash s).0 ≡ new
      → Holds s.retention k (fresh_entry c.wall k hash) (begin c k hash s).1
  unfolding begin begin_on cleanup_expired
  begin-new h =
      let s1 = (cleanup_expired false c s).1 in
      elim (Option-cases (select k s1)) [
        | inl free ↦ record {
          found = rw free (
              ground (
                arith,
                Table.select-append entry_key k s1.rows (fresh_entry c.wall k hash),
                beq_refl k,
              ));
          kept_for = rw free (ground arith);
        }
        | inr (e, there) ↦ absurd (ground arith)
      ]

  module _ (started : (begin c k hash s).0 ≡ new) (evs : List Event) (c' : Clock)
      (hash' : String) where
    abbrev limit : ℕ
    limit = c.wall + s.retention

    -- Once `begin` answered that a request is new, another `begin` with its key is told that the
    -- request is in progress, or that the key is taken by another payload: whatever happened to the
    -- store in between, if the key was neither completed nor cleared and did not expire.
    pub begin_excludes :
        All (Spares k limit) evs
        → c'.wall ≤ limit
        → (begin c' k hash' (apply_all evs (begin c k hash s).1)).0
          ≡ (if str_eq hash hash' then in_progress else conflict)
    begin_excludes spare late =
        let e = fresh_entry c.wall k hash in
        let h =
          apply_all-Holds s.retention k e evs (begin c k hash s).1 spare (begin-new started) in
        begin-found s.retention k e c' hash' (apply_all evs (begin c k hash s).1) late h
        ∙ ground arith

  complete-Holds :
      (e : Entry) (now code : ℕ) (payload : Value) (t : IdempotencyStore)
      → Holds s.retention k e t
      → Holds s.retention k (completed now code payload e) (complete now k code payload t)
  unfolding complete
  complete-Holds e now code payload t h = record {
    found = ground (
      arith,
      h.found,
      beq_refl k,
      Table.select-update entry_key k k (completed now code payload) t.rows (λ x. refl),
    );
    kept_for = h.kept_for;
  }

  module _ (started : (begin c k hash s).0 ≡ new) (before after : List Event) (now code : ℕ)
      (payload : Value) (c' : Clock) (hash' : String) where
    abbrev done : IdempotencyStore
    done = complete now k code payload (apply_all before (begin c k hash s).1)

    -- Once the new request was completed with a status code that is not 0, `begin` with its key
    -- answers with the code and the payload that were stored, or `conflict` for another payload's
    -- hash: whatever happened to the store in between, if the key was not completed again or cleared
    -- and did not expire.
    pub begin_replays :
        All (Spares k (c.wall + s.retention)) before
        → All (Spares k (now + s.retention)) after
        → c'.wall ≤ now + s.retention
        → 0 < code
        → (begin c' k hash' (apply_all after done)).0
          ≡ (if str_eq hash hash' then replay code payload else conflict)
    begin_replays spare spare' late real =
        let e = fresh_entry c.wall k hash in
        let t = apply_all before (begin c k hash s).1 in
        let h =
          apply_all-Holds s.retention k e before (begin c k hash s).1 spare (begin-new started) in
        let e' = completed now code payload e in
        let h' =
          apply_all-Holds s.retention k e' after done spare'
            (complete-Holds e now code payload t h) in
        begin-found s.retention k e' c' hash' (apply_all after done) late h' ∙ ground arith
