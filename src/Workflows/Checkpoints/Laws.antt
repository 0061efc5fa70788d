-- ===== src/Workflows/Checkpoints/Laws.antt =====
-- Reading back what was saved.
use nova_adapt.Base.{
  ℕ, ◌<◌, String, ◌≡◌, some, [], ◌∷◌, ◌++◌, arith, string_eq, pair_eq, str_eq, eq_iff, false,
  filter, All, filter-append, if◌then◌else◌, beq_refl, ◌&&◌,
}
use nova_adapt.Base.Text.{strip, is_empty}
use nova_adapt.Base.Json.{Fields}
use nova_adapt.Base.Table
use nova_adapt.Base.Order.{first-order_by}
use nova_adapt.Base.Exec.{ok}
use nova_adapt.Workflows.Checkpoints.{
  Checkpoint, Rows, key, save, load, latest, newest_first, of_workflow, replace_row,
}

module _ (now : ℕ) (wid name : String) (payload : Fields) (rows : Rows)
    (w : is_empty (strip wid) ≡ false) (c : is_empty (strip name) ≡ false) where
  abbrev saved : Checkpoint
  saved = record {
    workflow_id = strip wid;
    checkpoint_id = strip name;
    payload = payload;
    created_at = now;
  }

  pub save_lem : save now wid name payload rows ≡ (ok saved, replace_row saved rows)
  unfolding save
  save_lem = rw w (rw c)

  -- After a `save` under names that are not blank, `load` with names that are not blank finds the saved
  -- record if the names are the same without the blanks at their ends, and else what it found before.
  pub load-save :
      (wid' name' : String)
      → is_empty (strip wid') ≡ false
      → is_empty (strip name') ≡ false
      → (load wid' name' (save now wid name payload rows).1).0 ≡ (
          if str_eq (strip wid) (strip wid') && str_eq (strip name) (strip name')
          then ok (some saved)
          else (load wid' name' rows).0)
  unfolding load
  load-save wid' name' w' c' =
      let j : String × String = (strip wid', strip name') in
      ground (
        arith,
        save_lem,
        Table.select-append key j (Table.delete key (key saved) rows) saved,
        Table.select-delete key (key saved) j rows,
        eq_iff (strip wid) (strip wid'),
        eq_iff (strip name) (strip name'),
      )

  abbrev Older : Checkpoint → Type 0
  Older x = x.created_at < now

  not_newer : (xs : Rows) → All Older xs → All (λ x. newest_first x saved ≡ false) xs
  not_newer [] h = tt
  not_newer (x ∷ xs) h = (ground (arith, h.0), not_newer xs h.1)

  -- If every record of the workflow is older than `now`, a `save` under names that are not blank makes
  -- the saved record the latest.
  pub latest-save :
      All Older (filter (of_workflow (strip wid)) rows)
      → (latest wid (save now wid name payload rows).1).0 ≡ ok (some saved)
  unfolding latest
  latest-save older =
      let mine = of_workflow (strip wid) in
      let kept = Table.delete key (key saved) rows in
      let before = filter mine kept in
      let ours : filter mine (kept ++ saved ∷ []) ≡ before ++ saved ∷ [] =
        rw filter-append (ground (arith, beq_refl (strip wid))) in
      let newest =
        first-order_by newest_first before saved
          (not_newer before (Table.All-filter-delete key Older mine (key saved) rows older)) in
      ground (arith, save_lem, ours, newest)
