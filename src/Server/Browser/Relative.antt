-- ===== src/Server/Browser/Relative.antt =====
-- internal/server/http_browser.go: the entries of a directory, by the code's own relative paths.
use warpbox.Base.{
  ℕ, ◌<◌, ◌≡◌, ◌↔◌, ◌≢◌, refl, sym, ap, ap₂, ◌∙◌, inl, inr, Bool, true, false, ◌||◌, Option, none,
  some, List, [], ◌∷◌, ◌++◌, map, take, any, keep, All, Has, Distinct, Bool-cases, Option-cases,
  arith, Distinct-append, append_assoc, append-nil, map-append,
}
use warpbox.Base.Int.{ℤ}
use warpbox.Base.Text.{Text, text_eq, text_eq_iff, text_eq_sound, index_byte}
use warpbox.Base.Assoc.{Assoc, lookup, insert, lookup-insert}
use warpbox.Metadata.Record.{FileRecord, text_keys}
use warpbox.Library.Filter.{Filter}
use warpbox.Server.Browser.{
  Place, HtmlEntry, DirAgg, Rows, no_rows, rel_path, file_entry, add_to_dir, add_row, add_rows,
  agg_entry, dir_entries, all_items,
}
use warpbox.Server.Browser.Totals.{
  total_size, IsNonnegative, in_dir, is_flat, agg, expected, add_rows-total,
}

unfoldable pub in_order : Text → List Text → Bool
in_order name [] = false
in_order name (x ∷ order) = text_eq x name || in_order name order

in_order-append :
    (name x : Text) (order : List Text)
    → in_order name (order ++ x ∷ []) ≡ (in_order name order || text_eq x name)
unfolding in_order
in_order-append name x [] = ground arith
in_order-append name x (y ∷ order) = ground (arith, in_order-append name x order)

Has_in_order : (name : Text) (order : List Text) → Has name order → in_order name order ≡ true
unfolding in_order
Has_in_order name [] h = absurd h
Has_in_order name (y ∷ order) (inl e) = (let own = (text_eq_iff y name).1 (sym e) in rw own refl)
Has_in_order name (y ∷ order) (inr h) = ground (arith, Has_in_order name order h)

in_order_Has : (name : Text) (order : List Text) → in_order name order ≡ true → Has name order
unfolding in_order
in_order_Has name [] h = cc
in_order_Has name (y ∷ order) h = elim (Bool-cases (text_eq y name)) [
  | inl own ↦ inl (sym (text_eq_sound y name own))
  | inr other ↦ inr (in_order_Has name order (ground arith))
]

abbrev is_some : Option DirAgg → Bool
is_some none = false
is_some (some ag) = true

-- The order holds the keys of the map, each once.
record IsOrdered (rows : Rows) : Type 0 where
  once : Distinct rows.dir_order
  keys : (name : Text) → in_order name rows.dir_order ≡ is_some (lookup name rows.dir_map)

insert-IsOrdered :
    (name : Text) (ag : DirAgg) (rows : Rows)
    → IsOrdered rows
    → lookup name rows.dir_map ≡ none
    → IsOrdered (record rows {
      dir_map = insert name ag rows.dir_map;
      dir_order = rows.dir_order ++ name ∷ [];
    })
insert-IsOrdered name ag rows v e = record {
  once =
      Distinct-append rows.dir_order name v.once
        (λ h. (let found = Has_in_order name rows.dir_order h in ground (arith, v.keys name)));
  keys = λ other. ground (
    arith,
    v.keys other,
    in_order-append other name rows.dir_order,
    lookup-insert name other ag rows.dir_map,
  );
}

update-IsOrdered :
    (name : Text) (old ag : DirAgg) (rows : Rows)
    → IsOrdered rows
    → lookup name rows.dir_map ≡ some old
    → IsOrdered (record rows { dir_map = insert name ag rows.dir_map })
update-IsOrdered name old ag rows v e = record {
  once = v.once;
  keys = λ other. ground (
    arith,
    v.keys other,
    v.keys name,
    text_eq_iff name other,
    lookup-insert name other ag rows.dir_map,
  );
}

module _ (path_escape : Text → Text) (place : Place) where
  add_to_dir-IsOrdered :
      (name : Text) (size : ℤ) (rows : Rows)
      → IsOrdered rows
      → IsOrdered (add_to_dir path_escape place name size rows)
  unfolding add_to_dir
  add_to_dir-IsOrdered name size rows v = elim (Option-cases (lookup name rows.dir_map)) [
    | inl e ↦ rw (e, add_to_dir) (insert-IsOrdered name _ rows v e)
    | inr (ag, e) ↦ rw (e, add_to_dir) (update-IsOrdered name ag _ rows v e)
  ]

  add_row-IsOrdered :
      (rec : FileRecord) (rows : Rows)
      → IsOrdered rows
      → IsOrdered (add_row path_escape place rec rows)
  unfolding add_row
  add_row-IsOrdered rec rows v = elim (Option-cases (index_byte (rel_path place rec) b'/')) [
    | inl flat ↦ rw (flat, add_row) (record { once = v.once; keys = v.keys })
    | inr (i, nested) ↦
        rw (nested, add_row) (add_to_dir-IsOrdered (take i (rel_path place rec)) rec.size rows v)
  ]

  add_rows-IsOrdered :
      (records : List FileRecord) (rows : Rows)
      → IsOrdered rows
      → IsOrdered (add_rows path_escape place records rows)
  unfolding add_rows
  add_rows-IsOrdered [] rows v = v
  add_rows-IsOrdered (rec ∷ records) rows v =
      add_rows-IsOrdered records (add_row path_escape place rec rows) (add_row-IsOrdered rec rows v)

  add_to_dir-files :
      (name : Text) (size : ℤ) (rows : Rows)
      → (add_to_dir path_escape place name size rows).files ≡ rows.files
  unfolding add_to_dir
  add_to_dir-files name size rows = elim (Option-cases (lookup name rows.dir_map)) [
    | inl e ↦ rw (e, add_to_dir) refl
    | inr (ag, e) ↦ rw (e, add_to_dir) refl
  ]

  add_row-files :
      (rec : FileRecord) (rows : Rows)
      → (add_row path_escape place rec rows).files
        ≡ rows.files ++ map (file_entry path_escape place) (keep (is_flat place) (rec ∷ []))
  unfolding add_row is_flat keep
  add_row-files rec rows = elim (Option-cases (index_byte (rel_path place rec) b'/')) [
    | inl flat ↦ rw (flat, add_row, is_flat) refl
    | inr (i, nested) ↦
        rw (nested, add_row, is_flat)
          (add_to_dir-files (take i (rel_path place rec)) rec.size rows
            ∙ sym (append-nil rows.files))
  ]

  keep_first :
      (rec : FileRecord) (records : List FileRecord)
      → keep (is_flat place) (rec ∷ records)
        ≡ keep (is_flat place) (rec ∷ []) ++ keep (is_flat place) records
  unfolding keep
  keep_first rec records = ground arith

  add_rows-files :
      (records : List FileRecord) (rows : Rows)
      → (add_rows path_escape place records rows).files
        ≡ rows.files ++ map (file_entry path_escape place) (keep (is_flat place) records)
  unfolding add_rows keep
  add_rows-files [] rows = sym (append-nil rows.files)
  add_rows-files (rec ∷ records) rows =
      let entry = file_entry path_escape place in
      let first = map entry (keep (is_flat place) (rec ∷ [])) in
      let rest = map entry (keep (is_flat place) records) in
      add_rows-files records (add_row path_escape place rec rows)
      ∙ ap (λ fs. fs ++ rest) (add_row-files rec rows)
      ∙ append_assoc rows.files first rest
      ∙ ap (λ fs. rows.files ++ fs)
          (sym (map-append entry (keep (is_flat place) (rec ∷ [])) (keep (is_flat place) records))
            ∙ ap (map entry) (sym (keep_first rec records)))

  -- The entry of a directory, with the sum of the sizes of the rows in it.
  abbrev pub summed_entry : List FileRecord → Text → HtmlEntry
  summed_entry records name =
      agg_entry (agg path_escape place name (total_size (keep (in_dir place name) records)))

  dir_entries-order :
      (records : List FileRecord) (m : Assoc Text DirAgg) (order : List Text)
      → ((name : Text)
          → Has name order
          → lookup name m
            ≡ some (agg path_escape place name (total_size (keep (in_dir place name) records))))
      → dir_entries m order ≡ map (summed_entry records) order
  unfolding dir_entries
  dir_entries-order records m [] h = refl
  dir_entries-order records m (name ∷ order) h =
      rw (h name (inl refl), dir_entries)
        (ap (λ l. summed_entry records name ∷ l)
          (dir_entries-order records m order (λ other k. h other (inr k))))

  rows_of : List FileRecord → Rows
  rows_of records = add_rows path_escape place records no_rows

  rows_of-total :
      (records : List FileRecord) (name : Text)
      → All IsNonnegative records
      → total_size records < 9223372036854775808
      → lookup name (rows_of records).dir_map
        ≡ expected path_escape place
            (any (in_dir place name) records)
            name
            (total_size (keep (in_dir place name) records))
  unfolding rows_of lookup
  rows_of-total records name nonneg fits =
      add_rows-total path_escape place name records no_rows false 0 nonneg (omega arith) (λ h. refl)
        refl
      ∙ ap (expected path_escape place (any (in_dir place name) records) name) (omega arith)

  rows_of-IsOrdered : (records : List FileRecord) → IsOrdered (rows_of records)
  unfolding rows_of in_order lookup
  rows_of-IsOrdered records =
      add_rows-IsOrdered records no_rows (record { once = tt; keys = λ name. refl })

  some_expected :
      (b : Bool) (name : Text) (n : ℕ) → is_some (expected path_escape place b name n) ≡ b
  some_expected true name n = refl
  some_expected false name n = refl

  order_lem :
      (records : List FileRecord) (name : Text)
      → All IsNonnegative records
      → total_size records < 9223372036854775808
      → in_order name (rows_of records).dir_order ≡ any (in_dir place name) records
  order_lem records name nonneg fits =
      (rows_of-IsOrdered records).keys name
      ∙ ap is_some (rows_of-total records name nonneg fits)
      ∙ some_expected (any (in_dir place name) records) name _

  -- The entries: each directory with rows below it once, then the rows in the place itself.
  abbrev pub IsRelative : List FileRecord → List HtmlEntry → Type 0
  IsRelative records items =
      (order : List Text) × Distinct order
      × ((name : Text) → Has name order ↔ (any (in_dir place name) records ≡ true))
      × (items
          ≡ map (summed_entry records) order
            ++ map (file_entry path_escape place) (keep (is_flat place) records))

-- The entries, in the words of the code's own relative paths.
pub all_items-IsRelative :
    (path_escape : Text → Text) (filters : List Filter) (raw : Text) (place : Place)
    (records : List FileRecord)
    → raw ≢ []
    → All IsNonnegative records
    → total_size records < 9223372036854775808
    → IsRelative path_escape place records (all_items path_escape filters raw place records)
unfolding all_items rows_of
all_items-IsRelative path_escape filters [] place records below nonneg fits = absurd (below refl)
all_items-IsRelative path_escape filters (c ∷ raw) place records below nonneg fits =
    let rows = rows_of path_escape place records in
    let known = λ (name : Text). order_lem path_escape place records name nonneg fits in
    (
      rows.dir_order,
      (rows_of-IsOrdered path_escape place records).once,
      λ name. (
        λ h. sym (known name) ∙ Has_in_order name rows.dir_order h,
        λ h. in_order_Has name rows.dir_order (known name ∙ h),
      ),
      ap₂ ◌++◌
          (dir_entries-order path_escape place records rows.dir_map rows.dir_order (λ name h.
            rows_of-total path_escape place records name nonneg fits
            ∙ ap
                (λ b.
                  expected path_escape place b name (total_size (keep (in_dir place name) records)))
                (sym (known name) ∙ Has_in_order name rows.dir_order h)))
          (add_rows-files path_escape place records no_rows),
    )
