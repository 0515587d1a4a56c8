-- ===== src/Server/Browser.antt =====
-- internal/server/http_browser.go, and encodeDAVHref of propfind.go: the path that a request of the
-- HTML browser names, the entries of a directory with the sizes of what lies below, and their order.
-- url.PathEscape is a parameter.
pub mod Totals
pub mod Below
pub mod Order
pub mod Paths
pub mod Escaping
pub mod Links
pub mod Roots
pub mod Relative
pub mod Items
use warpbox.Base.{
  ℕ, suc, ◌+◌, Bool, true, false, not, ◌&&◌, Option, none, some, List, [], ◌∷◌, ◌++◌, map, reverse,
  take, ltb, ◌==◌, if◌then◌else◌,
}
use warpbox.Base.Int.{ℤ, pos, ◌+ℤ◌, wrap64, lt_int, eq_int}
use warpbox.Base.Text.{Text, codes, text_eq, index_byte, has_prefix, trim_prefix, to_lower}
use warpbox.Base.Assoc.{Assoc, lookup, insert}
use warpbox.Metadata.Record.{FileRecord, text_keys}
use warpbox.Metadata.Sync.{split_slash, join_slash}
use warpbox.Library.Filter.{
  Filter, match_directory, match_file, extract_directory, extract_relative_path,
}
use warpbox.Server.Answer.{mime_of}
use warpbox.Server.Listing.{trim_right_slash, immediate_name}
use warpbox.Server.Setup.{make_virtual_path_map}

-- strings.Count(s, "/")
unfoldable pub count_slash : Text → ℕ
count_slash [] = 0
count_slash (c ∷ s) = let n = count_slash s in if c == b'/' then suc n else n

-- strings.HasSuffix(s, "/")
abbrev pub ends_in_slash : Text → Bool
ends_in_slash s = elim (reverse s) [ [] ↦ false | c ∷ r ↦ c == b'/' ]

abbrev pub escape_all : (Text → Text) → List Text → List Text
escape_all path_escape segments = map path_escape segments

unfoldable pub encode_dav_href : (Text → Text) → Text → Text
encode_dav_href path_escape [] = []
encode_dav_href path_escape (c ∷ p) =
    let out = join_slash (escape_all path_escape (split_slash [] (c ∷ p))) in
    if ends_in_slash (c ∷ p) && not (ends_in_slash out) then out ++ codes "/" else out

-- The path below /http/, without slashes at its end.
unfoldable pub raw_virtual_path : Text → Text
raw_virtual_path url_path =
    let trimmed = trim_right_slash url_path in
    let req_path = if ltb (count_slash trimmed) 2 then codes "/http/" else trimmed in
    trim_prefix (trim_prefix req_path (codes "/http")) (codes "/")

abbrev pub first_segment : Text → Text
first_segment raw = (immediate_name raw).0

abbrev pub below : Text → Text → Text
below raw segment = trim_prefix (trim_prefix raw segment) (codes "/")

-- Where a path leads: the filter of its mount, what links begin with, and the path in the store.
pub record Place : Type 0 where
  pub filter : Option Filter
  pub mount_prefix : Text
  pub virtual_path : Text

unfoldable pub place_of : List Filter → Text → Place
place_of filters raw =
    let segment = first_segment raw in
    if text_eq segment (codes "__all__")
    then record {
      filter = none;
      mount_prefix = codes "/__all__";
      virtual_path = below raw (codes "__all__");
    }
    else elim (lookup segment (make_virtual_path_map filters)) [
      | some f ↦ record {
        filter = some f;
        mount_prefix = codes "/" ++ segment;
        virtual_path = below raw segment;
      }
      | none ↦ record { filter = none; mount_prefix = []; virtual_path = raw }
    ]

pub record HtmlEntry : Type 0 where
  pub name : Text
  pub href : Text
  pub size : ℤ
  pub is_dir : Bool
  pub mime : Text

-- The total of a directory so far.
pub record DirAgg : Type 0 where
  pub name : Text
  pub href : Text
  pub total_size : ℤ

-- The directories by their names, their names in order of appearance, and the files.
pub record Rows : Type 0 where
  pub dir_map : Assoc Text DirAgg
  pub dir_order : List Text
  pub files : List HtmlEntry

abbrev pub no_rows : Rows
no_rows = record { dir_map = []; dir_order = []; files = [] }

-- The link to a directory, before it is encoded.
abbrev pub dir_link : Place → Text → Text
dir_link place name = elim place.virtual_path [
  | [] ↦ codes "/http" ++ (place.mount_prefix ++ (codes "/" ++ (name ++ codes "/")))
  | c ∷ v ↦
      codes "/http"
      ++ (place.mount_prefix ++ (codes "/" ++ ((c ∷ v) ++ (codes "/" ++ (name ++ codes "/")))))
]

-- The link to a file, before it is encoded.
abbrev pub file_link : Place → FileRecord → Text
file_link place rec = codes "/http" ++ (place.mount_prefix ++ (codes "/" ++ rec.path))

abbrev pub rel_path : Place → FileRecord → Text
rel_path place rec = trim_prefix (trim_prefix rec.path place.virtual_path) (codes "/")

module _ (path_escape : Text → Text) where
  abbrev pub file_entry : Place → FileRecord → HtmlEntry
  file_entry place rec = record {
    name = rel_path place rec;
    href = encode_dav_href path_escape (file_link place rec);
    size = rec.size;
    is_dir = false;
    mime = mime_of rec;
  }

  -- A row in the directory `name`: the sizes add up as int64 values.
  unfoldable pub add_to_dir : Place → Text → ℤ → Rows → Rows
  add_to_dir place name size rows = elim (lookup name rows.dir_map) [
    | some ag ↦ record rows {
      dir_map =
          insert name (record ag { total_size = wrap64 (ag.total_size +ℤ size) }) rows.dir_map;
    }
    | none ↦ record rows {
      dir_map =
          insert name
            (record {
              name = name;
              href = encode_dav_href path_escape (dir_link place name);
              total_size = size;
            })
            rows.dir_map;
      dir_order = rows.dir_order ++ name ∷ [];
    }
  ]

  unfoldable pub add_row : Place → FileRecord → Rows → Rows
  add_row place rec rows =
      let rel = rel_path place rec in
      elim (index_byte rel b'/') [
        | some i ↦ add_to_dir place (take i rel) rec.size rows
        | none ↦ record rows { files = rows.files ++ file_entry place rec ∷ [] }
      ]

  unfoldable pub add_rows : Place → List FileRecord → Rows → Rows
  add_rows place [] rows = rows
  add_rows place (rec ∷ records) rows = add_rows place records (add_row place rec rows)

abbrev pub agg_entry : DirAgg → HtmlEntry
agg_entry ag = record {
  name = ag.name ++ codes "/";
  href = ag.href;
  size = ag.total_size;
  is_dir = true;
  mime = [];
}

-- Every name of the order is a key of the map.
unfoldable pub dir_entries : Assoc Text DirAgg → List Text → List HtmlEntry
dir_entries m [] = []
dir_entries m (name ∷ order) = elim (lookup name m) [
  | none ↦ dir_entries m order
  | some ag ↦ agg_entry ag ∷ dir_entries m order
]

-- Whether a row counts for the total of a mount at the root.
abbrev pub counts : Filter → FileRecord → Bool
counts f rec =
    match_directory f (extract_directory rec.path) && match_file f (extract_relative_path rec.path)

abbrev pub add_total : FileRecord → Filter × ℤ → Filter × ℤ
add_total rec (f, n) = (f, if counts f rec then wrap64 (n +ℤ rec.size) else n)

-- The total of all rows, and the totals of the filters.
unfoldable pub root_totals : List FileRecord → ℤ × List (Filter × ℤ) → ℤ × List (Filter × ℤ)
root_totals [] totals = totals
root_totals (rec ∷ records) (all, totals) =
    root_totals records (wrap64 (all +ℤ rec.size), map (add_total rec) totals)

module _ (path_escape : Text → Text) where
  abbrev pub mount_entry : Text → ℤ → HtmlEntry
  mount_entry name size = record {
    name = name ++ codes "/";
    href = encode_dav_href path_escape (codes "/http/" ++ (name ++ codes "/"));
    size = size;
    is_dir = true;
    mime = [];
  }

  unfoldable pub root_entries : List Filter → List FileRecord → List HtmlEntry
  root_entries filters records =
      let (all, totals) = root_totals records (pos 0, map (λ f. (f, pos 0)) filters) in
      mount_entry (codes "__all__") all
      ∷ map (λ t. mount_entry (trim_prefix t.0.mount (codes "/")) t.1) totals

  -- The directories, then the files, of a place, before they are sorted.
  unfoldable pub all_items : List Filter → Text → Place → List FileRecord → List HtmlEntry
  all_items filters raw place records = elim raw [
    | [] ↦ root_entries filters records
    | c ∷ r ↦
        let rows = add_rows path_escape place records no_rows in
        dir_entries rows.dir_map rows.dir_order ++ rows.files
  ]

pub data SortField : Type 0 where
  by_name by_size by_type : SortField

unfoldable pub parse_sort : Text → SortField × Bool
parse_sort query =
    let raw = to_lower query in
    let field = trim_prefix raw (codes "-") in
    (
      if text_eq field (codes "size")
          then by_size
          else if text_eq field (codes "type")
          then by_type
          else by_name,
      has_prefix raw (codes "-"),
    )

-- s < t, on the bytes of UTF-8, which order as the code points do
unfoldable pub text_lt : Text → Text → Bool
text_lt s [] = false
text_lt [] (d ∷ t) = true
text_lt (c ∷ s) (d ∷ t) = let rest = text_lt s t in if c == d then rest else ltb c d

-- The comparison, before its direction.
unfoldable pub less : SortField → HtmlEntry → HtmlEntry → Bool
less by_name a b = text_lt a.name b.name
less by_size a b = if eq_int a.size b.size then text_lt a.name b.name else lt_int a.size b.size
less by_type a b =
    if a.is_dir
    then if b.is_dir then text_lt a.name b.name else true
    else if b.is_dir
    then false
    else text_lt a.mime b.mime

unfoldable pub less_directed : SortField → Bool → HtmlEntry → HtmlEntry → Bool
less_directed field desc a b = if desc then not (less field a b) else less field a b
