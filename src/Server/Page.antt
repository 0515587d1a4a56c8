-- ===== src/Server/Page.antt =====
-- internal/server/http_browser.go: handleHTTP. A page stands before it is written as HTML: texts are
-- not escaped yet, and a size is the number that formatSize writes with a unit. The order of rows
-- with one name, url.PathEscape and sort.Slice are parameters.
pub mod Serves
use warpbox.Base.{
  ℕ, zero, suc, Bool, true, false, not, ◌&&◌, Option, none, some, List, [], ◌∷◌, ◌++◌, map, keep,
  if◌then◌else◌,
}
use warpbox.Base.Int.{ℤ, pos, eq_int}
use warpbox.Base.Text.{Text, codes}
use warpbox.Metadata.Record.{FileRecord}
use warpbox.Metadata.Sync.{split_slash}
use warpbox.Metadata.Store.{get_file_by_path}
use warpbox.Metadata.Store.Dir.{list_dir}
use warpbox.Library.Filter.{Filter, apply}
use warpbox.Server.State.{Server, Config, World}
use warpbox.Server.Answer.{Answer, error_reply, Request}
use warpbox.Server.Stream.{stream_file_content}
use warpbox.Server.Listing.{filtered, internal_error}
use warpbox.Server.Browser.{
  encode_dav_href, ends_in_slash, raw_virtual_path, Place, place_of, HtmlEntry, all_items,
  SortField, by_name, by_size, by_type, parse_sort, less_directed,
}

pub record Breadcrumb : Type 0 where
  pub name : Text
  pub href : Text

-- The cell of a size: a dash, or a number.
pub data SizeCell : Type 0 where
  dash : SizeCell
  formatted : ℤ → SizeCell

pub record Row : Type 0 where
  pub href : Text
  pub label : Text
  pub size : SizeCell
  pub kind : Text

-- A header of the table: its label with the arrow, and the query that it links to.
pub record Header : Type 0 where
  pub query : Text
  pub label : Text

pub record Page : Type 0 where
  pub title : Text
  pub breadcrumbs : List Breadcrumb
  pub sort_path : Text
  pub headers : List Header
  pub rows : List Row

pub data HttpAnswer : Type 0 where
  media : Answer → HttpAnswer
  page : Page → HttpAnswer

abbrev crumbs_from : (Text → Text) → Text → List Text → List Breadcrumb
crumbs_from path_escape accum [] = []
crumbs_from path_escape accum ([] ∷ parts) = crumbs_from path_escape accum parts
crumbs_from path_escape accum ((c ∷ p) ∷ parts) =
    record {
      name = c ∷ p;
      href =
          encode_dav_href path_escape (codes "/http" ++ ((accum ++ (b'/' ∷ c ∷ p)) ++ codes "/"));
    }
    ∷ crumbs_from path_escape (accum ++ (b'/' ∷ c ∷ p)) parts

unfoldable pub breadcrumbs : (Text → Text) → Text → List Breadcrumb
breadcrumbs path_escape raw =
    record { name = codes "root"; href = encode_dav_href path_escape (codes "/http/") }
    ∷ crumbs_from path_escape [] (split_slash [] raw)

abbrev field_name : SortField → Text
field_name by_name = codes "name"
field_name by_size = codes "size"
field_name by_type = codes "type"

abbrev same_field : SortField → SortField → Bool
same_field by_name by_name = true
same_field by_size by_size = true
same_field by_type by_type = true
same_field a b = false

unfoldable pub next : SortField → Bool → SortField → Text
next sort_field desc field =
    if same_field sort_field field && not desc
    then codes "sort=-" ++ field_name field
    else codes "sort=" ++ field_name field

unfoldable pub ind : SortField → Bool → SortField → Text
ind sort_field desc field =
    if not (same_field sort_field field) then [] else if desc then codes " ↓" else codes " ↑"

abbrev header : Text → SortField → Bool → SortField → Header
header label sort_field desc field = record {
  query = next sort_field desc field;
  label = label ++ ind sort_field desc field;
}

abbrev dash_if_zero : ℤ → SizeCell
dash_if_zero size = if eq_int size (pos 0) then dash else formatted size

abbrev pub dir_row : HtmlEntry → Row
dir_row e = record {
  href = e.href;
  label = codes "📁 " ++ e.name;
  size = dash_if_zero e.size;
  kind = codes "directory";
}

abbrev pub file_row : (ℤ → SizeCell) → HtmlEntry → Row
file_row size_cell e = record {
  href = e.href;
  label = e.name;
  size = size_cell e.size;
  kind = e.mime;
}

-- Files may stand before directories only in the descending order of types.
unfoldable pub table_rows : SortField → Bool → List HtmlEntry → List Row
table_rows by_type true items =
    map (λ e. if e.is_dir then dir_row e else file_row (λ n. dash_if_zero n) e) items
table_rows field desc items =
    map dir_row (keep (λ e. e.is_dir) items)
    ++ map (file_row formatted) (keep (λ e. not e.is_dir) items)

abbrev pub as_media : Option (Answer × Server) → Option (HttpAnswer × Server)
as_media none = none
as_media (some (a, s)) = some (media a, s)

module _ (w : World) (cfg : Config) (db_order : List FileRecord → List FileRecord)
    (path_escape : Text → Text)
    (sort : (HtmlEntry → HtmlEntry → Bool) → List HtmlEntry → List HtmlEntry)
    (filters : List Filter) (fuel : ℕ) where
  unfoldable pub listing_page : Text → Text → Place → List FileRecord → Page
  listing_page url_path query place records =
      let raw = raw_virtual_path url_path in
      let (field, desc) = parse_sort query in
      record {
        title = place.virtual_path;
        breadcrumbs = breadcrumbs path_escape raw;
        sort_path = if ends_in_slash url_path then url_path else url_path ++ codes "/";
        headers =
            header (codes "Name") field desc by_name
            ∷ header (codes "Size") field desc by_size
            ∷ header (codes "Type") field desc by_type
            ∷ [];
        rows =
            table_rows field desc
              (sort (less_directed field desc) (all_items path_escape filters raw place records));
      }

  -- Not a file: a page, also where nothing lies below.
  unfoldable pub http_directory : Text → Text → Place → Server → HttpAnswer × Server
  http_directory url_path query place s =
      let s₁ : Server = record s { events = suc s.events } in
      elim (w.query_error s.events) [
        | some e ↦ (media internal_error, s₁)
        | none ↦
            let records = filtered place.filter (list_dir db_order place.virtual_path s.store) in
            (page (listing_page url_path query place records), s₁)
      ]

  unfoldable pub handle_http : Text → Request → Server → Option (HttpAnswer × Server)
  handle_http query req s =
      let place = place_of filters (raw_virtual_path req.path) in
      let s₁ : Server = record s { events = suc s.events } in
      elim (w.query_error s.events) [
        | some e ↦ some (media internal_error, s₁)
        | none ↦ elim (get_file_by_path place.virtual_path s.store) [
          | none ↦ some (http_directory req.path query place s₁)
          | some file ↦ as_media (stream_file_content w cfg file req fuel s₁)
        ]
      ]
