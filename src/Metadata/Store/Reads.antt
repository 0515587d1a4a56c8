-- ===== src/Metadata/Store/Reads.antt =====
-- internal/metadata/store.go: the look-ups by TorBox's ids, and the counts. A look-up by file id takes the
-- order in which SQLite comes to the rows: several items may hold a file of one id, and the statement
-- does not say which is returned. The driver's error, if a statement fails, is an argument.
use warpbox.Base.{
  ℕ, suc, ◌≤◌, Bool, ◌&&◌, Option, none, some, List, [], ◌∷◌, ◌++◌, map, any, keep, length,
  if◌then◌else◌, arith,
}
use warpbox.Base.Int.{ℤ, pos, eq_int}
use warpbox.Base.Text.{Text, codes, text_eq}
use warpbox.Base.Result.{Result, ok, err}
use warpbox.Metadata.Record.{FileSource, FileRecord, source_eq, item_key_eq}
use warpbox.Metadata.Store.{Store, last_row}

unfoldable pub get_file_label_by_item_id : Option Text → ℤ → Store → Result Text
get_file_label_by_item_id (some e) item_id s = err (codes "querying item label: " ++ e)
get_file_label_by_item_id none item_id s =
    elim (last_row (λ row. eq_int row.item_id item_id) s.files) [
      | none ↦ ok []
      | some row ↦ ok row.path
    ]

-- LIMIT 1
abbrev pub first_row : List FileRecord → Option FileRecord
first_row [] = none
first_row (row ∷ rows) = some row

abbrev pub has_file_id : FileSource → ℤ → FileRecord → Bool
has_file_id source file_id row = source_eq row.source source && eq_int row.file_id file_id

unfoldable pub get_file_by_file_id :
    (List FileRecord → List FileRecord)
    → Option Text
    → FileSource
    → ℤ
    → Store
    → Result (Option FileRecord)
get_file_by_file_id order (some e) source file_id s = err (codes "querying file by file_id: " ++ e)
get_file_by_file_id order none source file_id s =
    ok (first_row (order (keep (has_file_id source file_id) s.files)))

-- 0 stands for no row.
unfoldable pub get_item_id_by_file_id :
    (List FileRecord → List FileRecord) → Option Text → FileSource → ℤ → Store → Result ℤ
get_item_id_by_file_id order (some e) source file_id s = err (codes "querying item_id: " ++ e)
get_item_id_by_file_id order none source file_id s =
    elim (first_row (order (keep (has_file_id source file_id) s.files))) [
      | none ↦ ok (pos 0)
      | some row ↦ ok row.item_id
    ]

-- COUNT(DISTINCT …)
unfoldable pub count_distinct : {K : Type 0} → (K → K → Bool) → List K → ℕ
count_distinct eq [] = 0
count_distinct eq (k ∷ ks) =
    let rest = count_distinct eq ks in if any (eq k) ks then rest else suc rest

unfoldable pub count_files : Option Text → Store → Result ℕ
count_files (some e) s = err (codes "counting files: " ++ e)
count_files none s = ok (length s.files)

unfoldable pub count_distinct_paths : Option Text → Store → Result ℕ
count_distinct_paths (some e) s = err (codes "counting distinct paths: " ++ e)
count_distinct_paths none s = ok (count_distinct text_eq (map (λ row. row.path) s.files))

unfoldable pub count_items : Option Text → Store → Result ℕ
count_items (some e) s = err (codes "counting items: " ++ e)
count_items none s = ok (
    count_distinct item_key_eq
      (map (λ row. record { source = row.source; item_id = row.item_id }) s.files))

-- No count of distinct keys is above the number of rows.
pub count_distinct-bound :
    {K : Type 0} (eq : K → K → Bool) (ks : List K) → count_distinct eq ks ≤ length ks
unfolding count_distinct
count_distinct-bound eq [] = omega arith
count_distinct-bound eq (k ∷ ks) = ground (arith, count_distinct-bound eq ks)
