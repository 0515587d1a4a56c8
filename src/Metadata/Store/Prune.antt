-- ===== src/Metadata/Store/Prune.antt =====
-- PruneBySyncTag: the batches against one filter.
use warpbox.Base.{
  ℕ, zero, suc, ◌+◌, ◌-◌, ◌<◌, ◌≡◌, refl, ap, Bool, true, not, Option, none, some, List, [], ◌∷◌,
  ◌==◌, arith, keep, length, Bool-cases, inl, inr, length-keep, ==_iff, ◌∙◌, sym,
}
use warpbox.Base.Int.{ℤ, pos, lt_int}
use warpbox.Base.Text.{Text}
use warpbox.Base.Result.{Result, ok}
use warpbox.Metadata.Record.{FileSource, FileRecord}
use warpbox.Metadata.Store.{
  Store, is_stale, delete_first, batch_size, prune_loop, prune_by_sync_tag,
}

abbrev unmarked : (FileRecord → Bool) → FileRecord → Bool
unmarked p row = not (p row)

abbrev pruned : ℕ → List FileRecord → Store → Option (Result ℕ × Store)
pruned total rows s = some (ok total, record s { files = rows })

pruned_eq :
    (s : Store) {n m : ℕ} {xs ys : List FileRecord}
    → n ≡ m
    → xs ≡ ys
    → pruned n xs s ≡ pruned m ys s
pruned_eq s e e' = cc

module _ (p : FileRecord → Bool) where
  -- A batch deletes only rows that pass, and those left pass the filter as before.
  keep-delete_first :
      (n : ℕ) (rows : List FileRecord)
      → keep (unmarked p) (delete_first p n rows).0 ≡ keep (unmarked p) rows
  unfolding delete_first keep
  keep-delete_first zero rows = refl
  keep-delete_first (suc n) [] = refl
  keep-delete_first (suc n) (row ∷ rows) =
      ground (arith, keep-delete_first n rows, keep-delete_first (suc n) rows)

  length-delete_first :
      (n : ℕ) (rows : List FileRecord)
      → length (delete_first p n rows).0 + (delete_first p n rows).1 ≡ length rows
  unfolding delete_first
  length-delete_first zero rows = omega arith
  length-delete_first (suc n) [] = omega arith
  length-delete_first (suc n) (row ∷ rows) =
      ground (arith, length-delete_first n rows, length-delete_first (suc n) rows)

  -- A batch that deletes nothing has nothing to delete.
  delete_first_none :
      (n : ℕ) (rows : List FileRecord)
      → (delete_first p (suc n) rows).1 ≡ 0
      → ((delete_first p (suc n) rows).0 ≡ rows) × (keep (unmarked p) rows ≡ rows)
  unfolding delete_first keep
  delete_first_none n [] h = (refl, refl)
  delete_first_none n (row ∷ rows) h = ground (arith, delete_first_none n rows)

  loop_deletes :
      (errors : ℕ → Option Text)
      → ((n : ℕ) → errors n ≡ none)
      → (fuel batch total : ℕ) (s : Store) → length s.files < fuel
      → prune_loop fuel batch errors p total s
        ≡ some (
          ok (total + (length s.files - length (keep (unmarked p) s.files))),
          record s { files = keep (unmarked p) s.files },
        )
  unfolding prune_loop
  loop_deletes errors fine zero batch total s h = absurd (omega arith)
  loop_deletes errors fine (suc fuel) batch total s h =
      let (rows, n) = delete_first p batch_size s.files in
      let rest : Store = record s { files = rows } in
      let counted = length-delete_first batch_size s.files in
      elim (Bool-cases (n == 0)) [
        | inl done ↦
            rw (fine batch, prune_loop)
              (rw done (
                let (same, all) = delete_first_none 249 s.files ((==_iff n 0).0 done) in
                pruned_eq s (omega (arith, ap length all)) (same ∙ sym all)))
        | inr more ↦
            rw (fine batch, prune_loop)
              (rw more (
                loop_deletes errors fine fuel (suc batch) (total + n) rest
                  (ground (arith, counted, h))
                ∙ pruned_eq s
                    (omega (
                      arith,
                      counted,
                      ap length (keep-delete_first batch_size s.files),
                      length-keep (unmarked p) (delete_first p batch_size s.files).0,
                    ))
                    (keep-delete_first batch_size s.files)))
      ]

  -- Whatever the driver answers, the rows that do not pass are all kept, in their order.
  loop_keeps :
      (errors : ℕ → Option Text) (fuel batch total : ℕ) (s s' : Store) (r : Result ℕ)
      → prune_loop fuel batch errors p total s ≡ some (r, s')
      → keep (unmarked p) s'.files ≡ keep (unmarked p) s.files
  unfolding prune_loop
  loop_keeps errors zero batch total s s' r h = cc
  loop_keeps errors (suc fuel) batch total s s' r h =
      let (rows, n) = delete_first p batch_size s.files in
      ground (
        arith,
        keep-delete_first batch_size s.files,
        loop_keeps errors fuel (suc batch) (total + n) (record s { files = rows }) s' r,
      )

abbrev pub is_current : ℤ → FileSource → FileRecord → Bool
is_current tag source row = not (is_stale tag source row)

-- With a positive tag, no failing batch and fuel for one batch a row, PruneBySyncTag deletes exactly
-- the rows of the source whose tag is not the given one (or is 0), keeps the others in their order,
-- and returns how many it deleted.
pub prune_by_sync_tag_exact :
    (fuel : ℕ) (errors : ℕ → Option Text) (tag : ℤ) (source : FileSource) (s : Store)
    → lt_int (pos 0) tag ≡ true
    → ((n : ℕ) → errors n ≡ none)
    → length s.files < fuel
    → prune_by_sync_tag fuel errors tag source s
      ≡ some (
        ok (length s.files - length (keep (is_current tag source) s.files)),
        record s { files = keep (is_current tag source) s.files },
      )
unfolding prune_by_sync_tag
prune_by_sync_tag_exact fuel errors tag source s positive fine h = rw (positive) (
    rw (loop_deletes (is_stale tag source) errors fine fuel 0 0 s h)
      (pruned_eq s (omega arith) refl))

-- Whatever the tag, the source and the batches that fail, a prune that ends has kept every row that
-- is not stale, in the order that they had.
pub prune_keeps_current :
    (fuel : ℕ) (errors : ℕ → Option Text) (tag : ℤ) (source : FileSource) (s s' : Store)
    (r : Result ℕ)
    → prune_by_sync_tag fuel errors tag source s ≡ some (r, s')
    → keep (is_current tag source) s'.files ≡ keep (is_current tag source) s.files
unfolding prune_by_sync_tag
prune_keeps_current fuel errors tag source s s' r h =
    ground (arith, loop_keeps (is_stale tag source) errors fuel 0 0 s s' r)
