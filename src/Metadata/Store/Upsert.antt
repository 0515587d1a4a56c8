-- ===== src/Metadata/Store/Upsert.antt =====
-- UpsertFile, and the table's constraints.
use warpbox.Base.{
  ℕ, suc, ◌≤◌, ◌<◌, ◌≡◌, refl, true, false, Option, none, some, List, [], ◌∷◌, arith, ◌||◌,
  if◌then◌else◌, any, Bool-cases, inl, inr, ◌∙◌,
}
use warpbox.Metadata.Record.{FileRecord, source_eq_iff, eq_int_iff}
use warpbox.Metadata.Store.{Store, same_key, update_row, upsert_row, upsert_file}

-- The row of the natural key (source, item_id, file_id).
unfoldable pub find_row : FileRecord → List FileRecord → Option FileRecord
find_row k [] = none
find_row k (row ∷ rows) = if same_key k row then some row else find_row k rows

pub same_key_trans : (a b c : FileRecord) → same_key a b ≡ true → same_key b c ≡ same_key a c
unfolding same_key
same_key_trans a b c h = ground (
  arith,
  source_eq_iff a.source b.source,
  eq_int_iff a.item_id b.item_id,
  eq_int_iff a.file_id b.file_id,
)

pub same_key_sym : (a b : FileRecord) → same_key a b ≡ same_key b a
unfolding same_key
same_key_sym a b = ground (
  arith,
  source_eq_iff a.source b.source,
  eq_int_iff a.item_id b.item_id,
  eq_int_iff a.file_id b.file_id,
  source_eq_iff b.source a.source,
  eq_int_iff b.item_id a.item_id,
  eq_int_iff b.file_id a.file_id,
)

pub same_key_update : (k f row : FileRecord) → same_key k (update_row f row) ≡ same_key k row
unfolding same_key
same_key_update k f row = refl

pub same_key_id : (k f : FileRecord) (id : ℕ) → same_key k (record f { id = id }) ≡ same_key k f
unfolding same_key
same_key_id k f id = refl

-- The row of the key of `f` behind the upsert, field by field, given the row that was there.
abbrev pub stored : FileRecord → ℕ → Option FileRecord → FileRecord
stored f id none = record {
  id = id;
  item_id = f.item_id;
  file_id = f.file_id;
  source = f.source;
  name = f.name;
  path = f.path;
  size = f.size;
  mime_type = f.mime_type;
  created_at = f.created_at;
  cdn_url = f.cdn_url;
  cdn_url_expiry = f.cdn_url_expiry;
  sync_tag = f.sync_tag;
}
stored f id (some row) = record {
  id = row.id;
  item_id = row.item_id;
  file_id = row.file_id;
  source = row.source;
  name = f.name;
  path = f.path;
  size = f.size;
  mime_type = f.mime_type;
  created_at = f.created_at;
  cdn_url = row.cdn_url;
  cdn_url_expiry = row.cdn_url_expiry;
  sync_tag = f.sync_tag;
}

find_row-upsert_row :
    (f k : FileRecord) (id : ℕ) (rows : List FileRecord)
    → find_row k (upsert_row f id rows)
      ≡ (if same_key f k then some (stored f id (find_row f rows)) else find_row k rows)
unfolding find_row upsert_row
find_row-upsert_row f k id [] = rw (same_key_id k f id, same_key_sym k f)
find_row-upsert_row f k id (row ∷ rows) = ground (
  arith,
  find_row-upsert_row f k id rows,
  same_key_update k f row,
  same_key_sym k f,
  same_key_sym k row,
  same_key_trans f row k,
  same_key_trans f k row,
  same_key_sym row k,
)

pub any-upsert_row :
    (r f : FileRecord) (id : ℕ) (rows : List FileRecord)
    → any (same_key r) (upsert_row f id rows) ≡ (same_key r f || any (same_key r) rows)
unfolding any upsert_row
any-upsert_row r f id [] = rw (same_key_id r f id)
any-upsert_row r f id (row ∷ rows) = ground (
  arith,
  any-upsert_row r f id rows,
  same_key_update r f row,
  same_key_trans f row r,
  same_key_sym r f,
  same_key_sym r row,
)

-- No two rows have one natural key.
abbrev pub Unique : List FileRecord → Type 0
Unique [] = Unit
Unique (row ∷ rows) = (any (same_key row) rows ≡ false) × Unique rows

-- Ids above `lo`, strictly increasing, up to `hi`.
abbrev pub Increasing : ℕ → List FileRecord → ℕ → Type 0
Increasing lo [] hi = lo ≤ hi
Increasing lo (row ∷ rows) hi = (lo < row.id) × Increasing row.id rows hi

-- The table's constraints: UNIQUE(source, item_id, file_id), and AUTOINCREMENT ids.
pub record IsValid (s : Store) : Type 0 where
  pub unique : Unique s.files
  pub ids : Increasing 0 s.files s.last_id

any_update :
    (f row : FileRecord) (rows : List FileRecord)
    → any (same_key row) rows ≡ false
    → any (same_key (update_row f row)) rows ≡ false
unfolding same_key
any_update f row rows h = h

Unique-upsert_row :
    (f : FileRecord) (id : ℕ) (rows : List FileRecord) → Unique rows → Unique (upsert_row f id rows)
unfolding upsert_row any
Unique-upsert_row f id [] u = (refl, tt)
Unique-upsert_row f id (row ∷ rows) u = elim (Bool-cases (same_key f row)) [
  | inl same ↦ rw same (any_update f row rows u.0, u.1)
  | inr other ↦ rw other (
    ground (arith, any-upsert_row row f id rows, same_key_sym f row, u.0),
    Unique-upsert_row f id rows u.1,
  )
]

Increasing-update :
    (f : FileRecord) (id lo hi : ℕ) (rows : List FileRecord)
    → any (same_key f) rows ≡ true
    → Increasing lo rows hi
    → Increasing lo (upsert_row f id rows) hi
unfolding upsert_row any
Increasing-update f id lo hi [] h u = cc
Increasing-update f id lo hi (row ∷ rows) h u =
    ground (arith, Increasing-update f id row.id hi rows)

Increasing-insert :
    (f : FileRecord) (lo hi : ℕ) (rows : List FileRecord)
    → any (same_key f) rows ≡ false
    → Increasing lo rows hi
    → Increasing lo (upsert_row f (suc hi) rows) (suc hi)
unfolding upsert_row any
Increasing-insert f lo hi [] h u = omega arith
Increasing-insert f lo hi (row ∷ rows) h u = ground (arith, Increasing-insert f row.id hi rows)

stored_there :
    (f : FileRecord) (i j : ℕ) (rows : List FileRecord)
    → any (same_key f) rows ≡ true
    → stored f i (find_row f rows) ≡ stored f j (find_row f rows)
unfolding any find_row
stored_there f i j [] h = cc
stored_there f i j (row ∷ rows) h = ground (arith, stored_there f i j rows)

-- UpsertFile stores the record: the row of its natural key becomes the record under a new id, or, if
-- there was a row, takes its name, path, size, type, date and tag and keeps its id and its cached
-- URL. The rows of other keys are as before, and the table's constraints hold again.
pub upsert_file_stores :
    (f k : FileRecord) (s : Store)
    → IsValid s
    → (find_row k (upsert_file none f s).1.files ≡ (
        if same_key f k
        then some (stored f (suc s.last_id) (find_row f s.files))
        else find_row k s.files))
      × IsValid (upsert_file none f s).1
unfolding upsert_file
upsert_file_stores f k s v = elim (Bool-cases (any (same_key f) s.files)) [
  | inl there ↦ rw there (
    find_row-upsert_row f k 0 s.files ∙ rw (stored_there f 0 (suc s.last_id) s.files there),
    record {
      unique = Unique-upsert_row f 0 s.files v.unique;
      ids = Increasing-update f 0 0 s.last_id s.files there v.ids;
    },
  )
  | inr absent ↦ rw absent (
    find_row-upsert_row f k (suc s.last_id) s.files,
    record {
      unique = Unique-upsert_row f (suc s.last_id) s.files v.unique;
      ids = Increasing-insert f 0 s.last_id s.files absent v.ids;
    },
  )
]
