-- ===== src/Library/Filter.antt =====
-- internal/library/filter.go. A compiled regular expression is its MatchString.
pub mod Cached
pub mod Largest
use warpbox.Base.{
  suc, Bool, true, false, not, ◌&&◌, Option, none, some, List, [], ◌∷◌, ◌++◌, if◌then◌else◌, drop,
  take,
}
use warpbox.Base.Int.{ℤ, pos, lt_int}
use warpbox.Base.Text.{Text, index_byte}
use warpbox.Base.Assoc.{Assoc, lookup, insert}
use warpbox.Metadata.Record.{FileRecord, zero_record, ItemKey, text_keys, item_key_keys}

abbrev pub Regexp : Type 0
Regexp = Text → Bool

pub record Filter : Type 0 where
  pub mount : Text
  pub directory_include : Option Regexp
  pub directory_exclude : Option Regexp
  pub file_regex : Option Regexp
  pub largest_file_only : Bool
  pub min_size : ℤ
  pub max_size : ℤ

-- `regexp.Compile` is a parameter; an empty pattern is not compiled. `none` is the compile error.
unfoldable pub compile_field : (Text → Option Regexp) → Text → Option (Option Regexp)
compile_field compile [] = some none
compile_field compile (c ∷ s) = elim (compile (c ∷ s)) [ none ↦ none | some r ↦ some (some r) ]

infixl 5 ◌>>=◌
abbrev ◌>>=◌ : {A B : Type 0} → Option A → (A → Option B) → Option B
none >>= f = none
some a >>= f = f a

unfoldable pub new_filter :
    (Text → Option Regexp) → Text → Text → Text → Text → Bool → Option Filter
unfolding compile_field
new_filter compile mount dir_include dir_exclude file_pattern largest_only = do
  include ← compile_field compile dir_include
  exclude ← compile_field compile dir_exclude
  file ← compile_field compile file_pattern
  some (record {
    mount = mount;
    directory_include = include;
    directory_exclude = exclude;
    file_regex = file;
    largest_file_only = largest_only;
    min_size = pos 0;
    max_size = pos 0;
  })

unfoldable pub extract_directory : Text → Text
extract_directory path = elim (index_byte path b'/') [ none ↦ path | some idx ↦ take idx path ]

unfoldable pub extract_relative_path : Text → Text
extract_relative_path path = elim (index_byte path b'/') [
  | none ↦ path
  | some idx ↦ drop (suc idx) path
]

abbrev matches : Option Regexp → Bool → Text → Bool
matches none absent name = absent
matches (some r) absent name = r name

unfoldable pub match_directory : Filter → Text → Bool
match_directory f name =
    if not (matches f.directory_include true name)
    then false
    else if matches f.directory_exclude false name
    then false
    else true

unfoldable pub match_file : Filter → Text → Bool
match_file f rel_path = matches f.file_regex true rel_path

unfoldable pub match_size : Filter → ℤ → Bool
match_size f size =
    if lt_int (pos 0) f.min_size && lt_int size f.min_size
    then false
    else if lt_int (pos 0) f.max_size && lt_int f.max_size size
    then false
    else true

-- One round of the loop of Apply on a directory's verdict.
abbrev selects : Filter → Bool → FileRecord → Bool
selects f ok rec =
    if not ok
    then false
    else if not (match_file f (extract_relative_path rec.path))
    then false
    else if not (match_size f rec.size)
    then false
    else true

-- dirMatchCache: the verdict on a directory, and the cache after it was asked for.
unfoldable pub verdict : Filter → Assoc Text Bool → Text → Bool
verdict f cache dir = elim (lookup dir cache) [ none ↦ match_directory f dir | some ok ↦ ok ]

unfoldable pub remember : Filter → Assoc Text Bool → Text → Assoc Text Bool
remember f cache dir = elim (lookup dir cache) [
  | none ↦ insert dir (match_directory f dir) cache
  | some _ ↦ cache
]

-- The loop of Apply: the cache, the result so far and the records left.
unfoldable pub apply_loop :
    Filter → Assoc Text Bool → List FileRecord → List FileRecord → List FileRecord
apply_loop f cache result [] = result
apply_loop f cache result (rec ∷ records) =
    let dir = extract_directory rec.path in
    apply_loop f (remember f cache dir)
      (if selects f (verdict f cache dir) rec then result ++ rec ∷ [] else result) records

unfoldable pub item_key : FileRecord → ItemKey
item_key rec = record { source = rec.source; item_id = rec.item_id }

-- One round of KeepLargest: the best record of each item, and the items in order of appearance.
unfoldable pub keep_step :
    Assoc ItemKey FileRecord → List ItemKey → FileRecord → Assoc ItemKey FileRecord × List ItemKey
unfolding item_key
keep_step best order rec = elim (lookup (item_key rec) best) [
  | none ↦ (insert (item_key rec) rec best, order ++ item_key rec ∷ [])
  | some existing ↦
      (if lt_int existing.size rec.size then insert (item_key rec) rec best else best, order)
]

unfoldable pub keep_loop :
    Assoc ItemKey FileRecord
    → List ItemKey
    → List FileRecord
    → Assoc ItemKey FileRecord × List ItemKey
keep_loop best order [] = (best, order)
keep_loop best order (rec ∷ records) =
    let (best', order') = keep_step best order rec in keep_loop best' order' records

-- `best[k]` for each key of the order; a missing key reads as the zero record.
unfoldable pub collect : Assoc ItemKey FileRecord → List ItemKey → List FileRecord
collect best [] = []
collect best (k ∷ order) =
    let rec : FileRecord = elim (lookup k best) [ none ↦ zero_record | some r ↦ r ] in
    rec ∷ collect best order

unfoldable pub keep_largest : List FileRecord → List FileRecord
keep_largest records = let (best, order) = keep_loop [] [] records in collect best order

unfoldable pub apply : Filter → List FileRecord → List FileRecord
apply f records =
    let result = apply_loop f [] [] records in
    if f.largest_file_only then keep_largest result else result
