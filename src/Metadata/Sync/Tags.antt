-- ===== src/Metadata/Sync/Tags.antt =====
-- The sync tag of each row after the upserts of a cycle.
use warpbox.Base.{
  ℕ, suc, ◌≡◌, refl, sym, ◌∙◌, Bool, true, false, not, ◌&&◌, ◌||◌, Option, none, some, List, [],
  ◌∷◌, length, arith, All, Bool-cases, inl, inr, keep, any, All-append,
}
use warpbox.Base.Int.{ℤ, pos, lt_int, eq_int}
use warpbox.Base.Text.{Text, text_eq, codes}
use warpbox.Base.Result.{ok}
use warpbox.Torbox.Listing.{Torrent, TorrentFile}
use warpbox.Metadata.Record.{FileSource, torrent, usenet, FileRecord, eq_int_iff, source_eq_iff}
use warpbox.Metadata.Store.{Store, same_key, update_row, upsert_row, upsert_file}
use warpbox.Metadata.Store.Upsert.{IsValid, Unique, same_key_sym, same_key_trans, any-upsert_row}
use warpbox.Metadata.Store.Valid.{any_same, writes_keep-IsValid}
use warpbox.Metadata.Store.Prune.{is_current, prune_by_sync_tag_exact}
use warpbox.Metadata.Sync.{
  records_of_files, records_of, build_file_record, upsert_all, prune_source,
}

same_key_refl : (f : FileRecord) → same_key f f ≡ true
unfolding same_key
same_key_refl f = ground (
  arith,
  source_eq_iff f.source f.source,
  eq_int_iff f.item_id f.item_id,
  eq_int_iff f.file_id f.file_id,
)

same_key_id_left :
    (f : FileRecord) (id : ℕ) (k : FileRecord) → same_key (record f { id = id }) k ≡ same_key f k
unfolding same_key
same_key_id_left f id k = refl

same_key_left : (f row k : FileRecord) → same_key (update_row f row) k ≡ same_key row k
unfolding same_key
same_key_left f row k = refl

any_key :
    (a b : FileRecord) (rows : List FileRecord)
    → same_key a b ≡ true
    → any (same_key a) rows ≡ any (same_key b) rows
any_key a b rows h = any_same a b rows (λ k. sym (same_key_trans a b k h))

module _ (tag : ℤ) where
  -- A row carries the tag exactly if one of the records seen so far has its key.
  abbrev Tagged : List FileRecord → List FileRecord → Type 0
  Tagged seen [] = Unit
  Tagged seen (row ∷ rows) = (eq_int row.sync_tag tag ≡ any (same_key row) seen) × Tagged seen rows

  -- A record that no row has the key of changes no verdict.
  Tagged-other :
      (f : FileRecord) (seen rows : List FileRecord)
      → any (same_key f) rows ≡ false
      → Tagged seen rows
      → Tagged (f ∷ seen) rows
  unfolding any
  Tagged-other f seen [] h t = tt
  Tagged-other f seen (row ∷ rows) h t =
      (ground (arith, same_key_sym row f), Tagged-other f seen rows (ground arith) t.1)

  Tagged-upsert_row :
      (f : FileRecord) (id : ℕ) (seen rows : List FileRecord)
      → f.sync_tag ≡ tag
      → Unique rows
      → Tagged seen rows
      → Tagged (f ∷ seen) (upsert_row f id rows)
  unfolding any upsert_row
  Tagged-upsert_row f id seen [] e u t =
      (ground (arith, same_key_refl f, same_key_id_left f id f, eq_int_iff f.sync_tag tag), tt)
  Tagged-upsert_row f id seen (row ∷ rows) e u t = elim (Bool-cases (same_key f row)) [
    | inl same ↦ rw same (
      ground (arith, same_key_sym f row, same_key_left f row f, eq_int_iff f.sync_tag tag),
      Tagged-other f seen rows (any_key f row rows same ∙ u.0) t.1,
    )
    | inr other ↦
        rw other (ground (arith, same_key_sym f row), Tagged-upsert_row f id seen rows e u.1 t.1)
  ]

  Tagged-upsert_file :
      (error : Option Text) (f : FileRecord) (seen : List FileRecord) (s : Store)
      → error ≡ none
      → f.sync_tag ≡ tag
      → Unique s.files
      → Tagged seen s.files
      → Tagged (f ∷ seen) (upsert_file error f s).1.files
  unfolding upsert_file
  Tagged-upsert_file (some x) f seen s h e u t = cc
  Tagged-upsert_file none f seen s h e u t = elim (Bool-cases (any (same_key f) s.files)) [
    | inl old ↦ rw old (Tagged-upsert_row f 0 seen s.files e u t)
    | inr new ↦ rw new (Tagged-upsert_row f (suc s.last_id) seen s.files e u t)
  ]

  -- The records of a list, the last in front, before those seen.
  abbrev pub seen_after : List FileRecord → List FileRecord → List FileRecord
  seen_after [] seen = seen
  seen_after (f ∷ records) seen = seen_after records (f ∷ seen)

  pub any-seen_after :
      (k : FileRecord) (records seen : List FileRecord)
      → any (same_key k) (seen_after records seen)
        ≡ (any (same_key k) records || any (same_key k) seen)
  unfolding any
  any-seen_after k [] seen = refl
  any-seen_after k (f ∷ records) seen = ground (arith, any-seen_after k records (f ∷ seen))

  pub Tagged-upsert_all :
      (errors : ℕ → Option Text) (n : ℕ) (records seen : List FileRecord) (s : Store)
      → ((i : ℕ) → errors i ≡ none)
      → All (λ f. f.sync_tag ≡ tag) records
      → IsValid s
      → Tagged seen s.files
      → Tagged (seen_after records seen) (upsert_all errors n records s).files
        × IsValid (upsert_all errors n records s)
  unfolding upsert_all
  Tagged-upsert_all errors n [] seen s fine e v t = (t, v)
  Tagged-upsert_all errors n (f ∷ records) seen s fine e v t =
      Tagged-upsert_all errors (suc n) records (f ∷ seen) (upsert_file (errors n) f s).1 fine e.1
        ((writes_keep-IsValid s v).0 (errors n) f)
        (Tagged-upsert_file (errors n) f seen s (fine n) e.0 v.unique t)

  any-upsert_file :
      (error : Option Text) (f k : FileRecord) (s : Store)
      → error ≡ none
      → any (same_key k) (upsert_file error f s).1.files
        ≡ (same_key k f || any (same_key k) s.files)
  unfolding upsert_file
  any-upsert_file (some x) f k s h = cc
  any-upsert_file none f k s h =
      ground (arith, any-upsert_row k f 0 s.files, any-upsert_row k f (suc s.last_id) s.files)

  pub any-upsert_all :
      (errors : ℕ → Option Text) (n : ℕ) (records : List FileRecord) (s : Store) (k : FileRecord)
      → ((i : ℕ) → errors i ≡ none)
      → any (same_key k) (upsert_all errors n records s).files
        ≡ (any (same_key k) records || any (same_key k) s.files)
  unfolding upsert_all any
  any-upsert_all errors n [] s k fine = refl
  any-upsert_all errors n (f ∷ records) s k fine = ground (
    arith,
    any-upsert_all errors (suc n) records (upsert_file (errors n) f s).1 k fine,
    any-upsert_file (errors n) f k s (fine n),
  )

  -- Rows of an earlier cycle carry another tag.
  pub Fresh-Tagged :
      (rows : List FileRecord) → All (λ row. eq_int row.sync_tag tag ≡ false) rows → Tagged [] rows
  unfolding any
  Fresh-Tagged [] h = tt
  Fresh-Tagged (row ∷ rows) h = (h.0, Fresh-Tagged rows h.1)

  All-records_of_files :
      (source : FileSource) (t : Torrent) (files : List TorrentFile)
      → All (λ f. f.sync_tag ≡ tag) (records_of_files tag source t files)
  unfolding records_of_files build_file_record
  All-records_of_files source t [] = tt
  All-records_of_files source t (f ∷ files) = (refl, All-records_of_files source t files)

  pub All-records_of :
      (source : FileSource) (items : List Torrent)
      → All (λ f. f.sync_tag ≡ tag) (records_of tag source items)
  unfolding records_of
  All-records_of source [] = tt
  All-records_of source (t ∷ items) =
      All-append (λ f. f.sync_tag ≡ tag) _ _
        (elim (Bool-cases
          (not (text_eq t.download_state (codes "cached")) && not t.download_present)) [
            | inl skipped ↦ rw skipped tt
            | inr taken ↦ rw taken (All-records_of_files source t t.files)
          ])
        (All-records_of source items)

  -- The two prunes leave the rows that carry the tag.
  pub pruned_twice :
      (rows : List FileRecord)
      → lt_int (pos 0) tag ≡ true
      → keep (is_current tag usenet) (keep (is_current tag torrent) rows)
        ≡ keep (λ row. eq_int row.sync_tag tag) rows
  unfolding keep
  pruned_twice [] h = refl
  pruned_twice (row ∷ rows) h =
      ground
        (arith, pruned_twice rows h, eq_int_iff row.sync_tag tag, eq_int_iff row.sync_tag (pos 0))

  pub any-keep-Tagged :
      (k : FileRecord) (seen rows : List FileRecord)
      → Tagged seen rows
      → any (same_key k) (keep (λ row. eq_int row.sync_tag tag) rows)
        ≡ (any (same_key k) rows && any (same_key k) seen)
  unfolding any keep
  any-keep-Tagged k seen [] t = refl
  any-keep-Tagged k seen (row ∷ rows) t =
      ground (arith, any-keep-Tagged k seen rows t.1, any_key k row seen)

pub All-keep :
    (p : FileRecord → Bool) (rows : List FileRecord) → All (λ row. p row ≡ true) (keep p rows)
unfolding keep
All-keep p [] = tt
All-keep p (row ∷ rows) = elim (Bool-cases (p row)) [
  | inl e ↦ rw e (e, All-keep p rows)
  | inr e ↦ rw e (All-keep p rows)
]

pub prune_source_fine :
    (items : List Torrent) (errors : ℕ → Option Text) (tag : ℤ) (source : FileSource) (s : Store)
    → lt_int (pos 0) tag ≡ true
    → ((i : ℕ) → errors i ≡ none)
    → (prune_source (ok items) errors tag source s).files ≡ keep (is_current tag source) s.files
unfolding prune_source
prune_source_fine items errors tag source s positive fine = rw positive (
    rw (
      prune_by_sync_tag_exact (suc (length s.files)) errors tag source s positive fine
        (omega arith)))
