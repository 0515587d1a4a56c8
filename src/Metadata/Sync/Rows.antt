-- ===== src/Metadata/Sync/Rows.antt =====
-- A cycle whose fetch of a source failed, and that source's rows.
use warpbox.Base.{
  ℕ, suc, ◌≡◌, refl, sym, subst, ap, ◌∙◌, Bool, true, false, not, ◌&&◌, Option, none, some, List,
  [], ◌∷◌, length, arith, All, All-append, Bool-cases, Option-cases, inl, inr, keep,
}
use warpbox.Base.Int.{ℤ, pos, lt_int}
use warpbox.Base.Text.{Text, text_eq, codes}
use warpbox.Base.Result.{Result, ok, err}
use warpbox.Torbox.Listing.{Torrent, TorrentFile}
use warpbox.Metadata.Record.{FileSource, torrent, usenet, FileRecord, source_eq, source_eq_iff}
use warpbox.Metadata.Store.{
  Store, same_key, upsert_row, upsert_file, prune_by_sync_tag, get_next_sync_tag,
}
use warpbox.Metadata.Store.Prune.{is_current, prune_keeps_current}
use warpbox.Metadata.Sync.{
  records_of_files, records_of, build_file_record, upsert_all, prune_source, fetched, Cycle,
  SyncWorker, store_cycle, run_cycle, sync_once,
}

abbrev pub of_source : FileSource → FileRecord → Bool
of_source source row = source_eq row.source source

-- A filter that implies another one sees through it.
keep-keep :
    (p q : FileRecord → Bool) (rows : List FileRecord)
    → ((row : FileRecord) → p row ≡ true → q row ≡ true)
    → keep p (keep q rows) ≡ keep p rows
unfolding keep
keep-keep p q [] h = refl
keep-keep p q (row ∷ rows) h = ground (arith, keep-keep p q rows h, h row)

same_key_source : (a b : FileRecord) → same_key a b ≡ true → a.source ≡ b.source
unfolding same_key
same_key_source a b h = ground (arith, source_eq_iff a.source b.source)

module _ (source : FileSource) where
  keep-upsert_row :
      (f : FileRecord) (id : ℕ) (rows : List FileRecord)
      → of_source source f ≡ false
      → keep (of_source source) (upsert_row f id rows) ≡ keep (of_source source) rows
  unfolding keep upsert_row
  keep-upsert_row f id [] h = rw h
  keep-upsert_row f id (row ∷ rows) h =
      ground (arith, keep-upsert_row f id rows h, same_key_source f row)

  keep-upsert_file :
      (e : Option Text) (f : FileRecord) (s : Store)
      → of_source source f ≡ false
      → keep (of_source source) (upsert_file e f s).1.files ≡ keep (of_source source) s.files
  unfolding upsert_file
  keep-upsert_file none f s h =
      ground (arith, keep-upsert_row f 0 s.files h, keep-upsert_row f (suc s.last_id) s.files h)
  keep-upsert_file (some e) f s h = ground arith

  keep-upsert_all :
      (errors : ℕ → Option Text) (n : ℕ) (records : List FileRecord) (s : Store)
      → All (λ f. of_source source f ≡ false) records
      → keep (of_source source) (upsert_all errors n records s).files
        ≡ keep (of_source source) s.files
  unfolding upsert_all
  keep-upsert_all errors n [] s h = refl
  keep-upsert_all errors n (f ∷ records) s h =
      keep-upsert_all errors (suc n) records (upsert_file (errors n) f s).1 h.1
      ∙ keep-upsert_file (errors n) f s h.0

  module _ (other : FileSource) (apart : source_eq other source ≡ false) (tag : ℤ) where
    All-records_of_files :
        (t : Torrent) (files : List TorrentFile)
        → All (λ f. of_source source f ≡ false) (records_of_files tag other t files)
    unfolding records_of_files build_file_record
    All-records_of_files t [] = tt
    All-records_of_files t (f ∷ files) = (apart, All-records_of_files t files)

    All-records_of :
        (items : List Torrent) → All (λ f. of_source source f ≡ false) (records_of tag other items)
    unfolding records_of
    All-records_of [] = tt
    All-records_of (t ∷ items) =
        All-append (λ f. of_source source f ≡ false) _ _
          (elim (Bool-cases
            (not (text_eq t.download_state (codes "cached")) && not t.download_present)) [
              | inl skipped ↦ rw skipped tt
              | inr taken ↦ rw taken (All-records_of_files t t.files)
            ])
          (All-records_of items)

    current_elsewhere :
        (row : FileRecord) → of_source source row ≡ true → is_current tag other row ≡ true
    current_elsewhere row h = ground (
      arith,
      source_eq_iff row.source source,
      source_eq_iff other source,
      source_eq_iff row.source other,
    )

    keep-prune_source :
        (fetch : Result (List Torrent)) (errors : ℕ → Option Text) (s : Store)
        → keep (of_source source) (prune_source fetch errors tag other s).files
          ≡ keep (of_source source) s.files
    unfolding prune_source
    keep-prune_source (err e) errors s = refl
    keep-prune_source (ok items) errors s = elim (Bool-cases (lt_int (pos 0) tag)) [
      | inl positive ↦
          rw positive
            (elim (Option-cases (prune_by_sync_tag (suc (length s.files)) errors tag other s)) [
              | inl e ↦ rw e refl
              | inr ((r, s'), e) ↦ rw e (
                  sym
                    (keep-keep (of_source source) (is_current tag other) s'.files current_elsewhere)
                  ∙ (ap (keep (of_source source))
                        (prune_keeps_current (suc (length s.files)) errors tag other s s' r e)
                      ∙ keep-keep (of_source source) (is_current tag other) s.files
                          current_elsewhere))
            ])
      | inr refused ↦ rw refused refl
    ]

failed_torrents :
    (c : Cycle) (tag : ℤ) (s : Store) (e : Text)
    → c.torrents ≡ err e
    → keep (of_source torrent) (store_cycle c tag s).files ≡ keep (of_source torrent) s.files
unfolding store_cycle records_of upsert_all prune_source keep
failed_torrents c tag s e h =
    rw (h, records_of, upsert_all, prune_source)
      (keep-prune_source torrent usenet refl tag c.usenet_items c.usenet_prune_errors _
        ∙ keep-upsert_all torrent c.usenet_errors 0 _ s
            (All-records_of torrent usenet refl tag (fetched c.usenet_items)))

failed_usenet :
    (c : Cycle) (tag : ℤ) (s : Store) (e : Text)
    → c.usenet_items ≡ err e
    → keep (of_source usenet) (store_cycle c tag s).files ≡ keep (of_source usenet) s.files
unfolding store_cycle records_of upsert_all prune_source keep
failed_usenet c tag s e h =
    rw (h, records_of, upsert_all, prune_source)
      (keep-prune_source usenet torrent refl tag c.torrents c.torrent_prune_errors _
        ∙ keep-upsert_all usenet c.torrent_errors 0 _ s
            (All-records_of usenet torrent refl tag (fetched c.torrents)))

tag_files : (e : Option Text) (s : Store) → (get_next_sync_tag e s).1.files ≡ s.files
unfolding get_next_sync_tag
tag_files none s = refl
tag_files (some e) s = refl

-- The rows of a cycle: as they were, or those of `store_cycle` under some tag.
module _ (c : Cycle) (w : SyncWorker) (s : Store) (p : List FileRecord → Type 0) (same : p s.files)
    (step : (tag : ℤ) (s₀ : Store) → s₀.files ≡ s.files → p (store_cycle c tag s₀).files) where
  run_cycle_files :
      (r : Result ℤ) (s₀ : Store) → s₀.files ≡ s.files → p (run_cycle c w s r s₀).store.files
  unfolding run_cycle
  run_cycle_files (err e) s₀ h = subst p (sym h) same
  run_cycle_files (ok tag) s₀ h = step tag s₀ h

  sync_once_files : p (sync_once c w s).store.files
  unfolding sync_once
  sync_once_files = elim (Bool-cases w.syncing) [
    | inl busy ↦ simp busy same
    | inr free ↦ simp free (
        run_cycle_files (get_next_sync_tag c.tag_error s).0 (get_next_sync_tag c.tag_error s).1
          (tag_files c.tag_error s))
  ]

-- What the fetch of a source gave.
abbrev pub fetch_of : FileSource → Cycle → Result (List Torrent)
fetch_of torrent c = c.torrents
fetch_of usenet c = c.usenet_items

-- A source whose fetch failed keeps all its rows as they are, in their order, whatever the other
-- source, the driver and the tag do.
pub failed_fetch_keeps_rows :
    (source : FileSource) (c : Cycle) (w : SyncWorker) (s : Store) (e : Text)
    → fetch_of source c ≡ err e
    → keep (of_source source) (sync_once c w s).store.files ≡ keep (of_source source) s.files
failed_fetch_keeps_rows torrent c w s e h =
    sync_once_files c w s (λ rows. keep (of_source torrent) rows ≡ keep (of_source torrent) s.files)
      refl (λ tag s₀ same. failed_torrents c tag s₀ e h ∙ ap (keep (of_source torrent)) same)
failed_fetch_keeps_rows usenet c w s e h =
    sync_once_files c w s (λ rows. keep (of_source usenet) rows ≡ keep (of_source usenet) s.files)
      refl (λ tag s₀ same. failed_usenet c tag s₀ e h ∙ ap (keep (of_source usenet)) same)
