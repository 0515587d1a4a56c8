-- ===== src/Metadata/Store.antt =====
-- internal/metadata/store.go: the rows of the database and the statements on them. The driver's
-- error, if a statement fails, is an argument; a failed statement changes no row.
pub mod Upsert
pub mod Prune
pub mod Valid
pub mod Paths
pub mod Dir
pub mod Reads
use warpbox.Base.{
  ℕ, zero, suc, ◌+◌, ◌-◌, Bool, true, false, not, ◌&&◌, ◌||◌, Option, none, some, List, [], ◌∷◌,
  ◌++◌, map, ◌==◌, ltb, if◌then◌else◌, keep, any, length, take,
}
use warpbox.Base.Int.{ℤ, pos, eq_int, lt_int, ◌+ℤ◌, wrap64}
use warpbox.Base.Text.{Text, codes, text_eq, contains, index_byte, format_int}
use warpbox.Base.Result.{Result, ok, err}
use warpbox.Metadata.Record.{FileSource, FileRecord, source_eq}

-- The table `files` in the order of its ids, the ids given out, the counter `sync_tag` of `meta` if
-- its row is there, and the count of lock errors.
pub record Store : Type 0 where
  pub files : List FileRecord
  pub last_id : ℕ
  pub sync_tag : Option ℤ
  pub db_lock_errors : ℕ

abbrev pub empty_store : Store
empty_store = record { files = []; last_id = 0; sync_tag = none; db_lock_errors = 0 }

unfoldable pub is_locked_error : Option Text → Bool
is_locked_error none = false
is_locked_error (some msg) =
    contains msg (codes "database is locked")
    || contains msg (codes "SQLITE_BUSY")
    || contains msg (codes "SQLITE_LOCKED")

abbrev pub count_lock : Option Text → Store → Store
count_lock e s = if is_locked_error e then record s { db_lock_errors = suc s.db_lock_errors } else s

-- UNIQUE(source, item_id, file_id)
unfoldable pub same_key : FileRecord → FileRecord → Bool
same_key a b =
    source_eq a.source b.source && eq_int a.item_id b.item_id && eq_int a.file_id b.file_id

-- ON CONFLICT DO UPDATE: the row keeps its id and its cached URL.
abbrev pub update_row : FileRecord → FileRecord → FileRecord
update_row f row = record row {
  name = f.name;
  path = f.path;
  size = f.size;
  mime_type = f.mime_type;
  created_at = f.created_at;
  sync_tag = f.sync_tag;
}

unfoldable pub upsert_row : FileRecord → ℕ → List FileRecord → List FileRecord
upsert_row f id [] = record f { id = id } ∷ []
upsert_row f id (row ∷ rows) =
    if same_key f row then update_row f row ∷ rows else row ∷ upsert_row f id rows

unfoldable pub upsert_file : Option Text → FileRecord → Store → Option Text × Store
unfolding is_locked_error
upsert_file (some e) f s = (some e, count_lock (some e) s)
upsert_file none f s = (
  none,
  if any (same_key f) s.files
      then record s { files = upsert_row f 0 s.files }
      else record s { files = upsert_row f (suc s.last_id) s.files; last_id = suc s.last_id },
)

-- ORDER BY id DESC LIMIT 1 over the rows that pass
unfoldable pub last_row : (FileRecord → Bool) → List FileRecord → Option FileRecord
last_row p [] = none
last_row p (row ∷ rows) = elim (last_row p rows) [
  | some r ↦ some r
  | none ↦ if p row then some row else none
]

abbrev pub has_path : Text → FileRecord → Bool
has_path path row = text_eq row.path path

unfoldable pub get_file_by_path : Text → Store → Option FileRecord
get_file_by_path path s = last_row (has_path path) s.files

-- The rows that pass but the last such row, the latest first.
unfoldable pub all_but_last : (FileRecord → Bool) → List FileRecord → List FileRecord
all_but_last p [] = []
all_but_last p (row ∷ rows) =
    let rest = all_but_last p rows in if p row && any p rows then rest ++ row ∷ [] else rest

unfoldable pub get_file_alternatives : Text → Store → List FileRecord
unfolding all_but_last
get_file_alternatives path s = all_but_last (has_path path) s.files

-- WHERE id = ?
unfoldable pub update_id : ℕ → (FileRecord → FileRecord) → List FileRecord → List FileRecord
update_id id f [] = []
update_id id f (row ∷ rows) = (if row.id == id then f row else row) ∷ update_id id f rows

-- The retry loop of SetCDNURL: `left` attempts to go, of three, and `errors` the driver's answer to
-- each attempt.
unfoldable pub set_cdn_attempts :
    ℕ → ℕ → (ℕ → Option Text) → ℕ → Text → Text → Store → Option Text × Store
unfolding update_id is_locked_error
set_cdn_attempts zero attempt errors id url expires s = (none, s)
set_cdn_attempts (suc left) attempt errors id url expires s = elim (errors attempt) [
  | none ↦ (
    none,
    record s {
      files = update_id id (λ row. record row { cdn_url = url; cdn_url_expiry = expires }) s.files;
    },
  )
  | some e ↦ elim left [
    | zero ↦ (some e, count_lock (some e) s)
    | suc more ↦ set_cdn_attempts left (suc attempt) errors id url expires (count_lock (some e) s)
  ]
]

unfoldable pub set_cdn_url : (ℕ → Option Text) → ℕ → Text → Text → Store → Option Text × Store
unfolding set_cdn_attempts
set_cdn_url errors id url expires s = set_cdn_attempts 3 0 errors id url expires s

unfoldable pub set_file_size : Option Text → ℕ → ℤ → Store → Option Text × Store
unfolding update_id
set_file_size (some e) id size s = (some (codes "setting file size: " ++ e), s)
set_file_size none id size s =
    (none, record s { files = update_id id (λ row. record row { size = size }) s.files })

unfoldable pub find_id : ℕ → List FileRecord → Option FileRecord
find_id id [] = none
find_id id (row ∷ rows) = if row.id == id then some row else find_id id rows

-- The URL of a row at time `now`; `parse_time` reads RFC 3339. No row, no URL, an expiry that is
-- not a time or is past: the empty text.
abbrev pub valid_url : (Text → Option ℕ) → ℕ → Text → Text → Text
valid_url parse_time now [] expires = []
valid_url parse_time now (c ∷ url) [] = c ∷ url
valid_url parse_time now (c ∷ url) (d ∷ expires) = elim (parse_time (d ∷ expires)) [
  | none ↦ []
  | some expiry ↦ if ltb expiry now then [] else c ∷ url
]

unfoldable pub get_cdn_url : (Text → Option ℕ) → ℕ → ℕ → Store → Text
get_cdn_url parse_time now id s = elim (find_id id s.files) [
  | none ↦ []
  | some row ↦ valid_url parse_time now row.cdn_url row.cdn_url_expiry
]

pub record ItemDir : Type 0 where
  pub item_id : ℤ
  pub source : FileSource
  pub dir : Text

-- CASE WHEN instr(path, '/') > 0 THEN substr(path, 1, instr(path, '/') - 1) ELSE path END
unfoldable pub dir_of : Text → Text
dir_of path = elim (index_byte path b'/') [ none ↦ path | some i ↦ take i path ]

unfoldable pub item_dir : FileRecord → ItemDir
unfolding dir_of
item_dir row = record { item_id = row.item_id; source = row.source; dir = dir_of row.path }

abbrev pub item_dir_eq : ItemDir → ItemDir → Bool
item_dir_eq a b = eq_int a.item_id b.item_id && source_eq a.source b.source && text_eq a.dir b.dir

-- SELECT DISTINCT
unfoldable pub distinct_dirs : List ItemDir → List ItemDir
distinct_dirs [] = []
distinct_dirs (d ∷ ds) =
    let rest = distinct_dirs ds in if any (item_dir_eq d) rest then rest else d ∷ rest

unfoldable pub list_item_dirs : Store → List ItemDir
unfolding item_dir distinct_dirs
list_item_dirs s = distinct_dirs (map item_dir s.files)

-- INSERT OR IGNORE, then UPDATE ... RETURNING. `meta` holds no other key. Past the greatest int64 SQLite
-- goes on with a REAL, where this wraps around: a tag there is outside the model.
unfoldable pub get_next_sync_tag : Option Text → Store → Result ℤ × Store
get_next_sync_tag (some e) s = (err (codes "incrementing sync tag: " ++ e), s)
get_next_sync_tag none s =
    let tag : ℤ = elim s.sync_tag [ none ↦ pos 1 | some t ↦ wrap64 (t +ℤ pos 1) ] in
    (ok tag, record s { sync_tag = some tag })

-- source = ? AND (sync_tag != ? OR sync_tag = 0)
abbrev pub is_stale : ℤ → FileSource → FileRecord → Bool
is_stale tag source row =
    source_eq row.source source && (not (eq_int row.sync_tag tag) || eq_int row.sync_tag (pos 0))

-- DELETE of the first `n` rows that pass, with the number of rows deleted.
unfoldable pub delete_first : (FileRecord → Bool) → ℕ → List FileRecord → List FileRecord × ℕ
delete_first p zero rows = (rows, 0)
delete_first p (suc n) [] = ([], 0)
delete_first p (suc n) (row ∷ rows) =
    let dropped = delete_first p n rows in
    let kept = delete_first p (suc n) rows in
    elim (p row) [ true ↦ (dropped.0, suc dropped.1) | false ↦ (row ∷ kept.0, kept.1) ]

abbrev pub batch_size : ℕ
batch_size = 250

-- The loop of PruneBySyncTag: `errors` answers each batch, `total` counts. `none` means that the fuel
-- ran out before a batch that deletes nothing.
unfoldable pub prune_loop :
    ℕ → ℕ → (ℕ → Option Text) → (FileRecord → Bool) → ℕ → Store → Option (Result ℕ × Store)
unfolding is_locked_error
prune_loop zero batch errors p total s = none
prune_loop (suc fuel) batch errors p total s =
    let (rows, n) = delete_first p batch_size s.files in
    let s' : Store = record s { files = rows } in
    elim (errors batch) [
      | some e ↦ some (err (codes "pruning by sync tag: " ++ e), count_lock (some e) s)
      | none ↦ elim (n == 0) [
        | true ↦ some (ok total, s')
        | false ↦ prune_loop fuel (suc batch) errors p (total + n) s'
      ]
    ]

unfoldable pub prune_by_sync_tag :
    ℕ → (ℕ → Option Text) → ℤ → FileSource → Store → Option (Result ℕ × Store)
unfolding prune_loop
prune_by_sync_tag fuel errors tag source s =
    if lt_int (pos 0) tag
    then prune_loop fuel 0 errors (is_stale tag source) 0 s
    else some (err (codes "refusing to prune with invalid sync tag " ++ format_int tag), s)
