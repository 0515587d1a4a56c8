-- ===== src/Server/Listing.antt =====
-- internal/server/get.go and propfind.go: the entries of a directory's listing, for GET and PROPFIND.
-- The order in which Go ranges over a map is a parameter. Rendering an entry as XML is left out, but for the
-- panic at a short date.
pub mod Dates
pub mod Agree
use warpbox.Base.{
  ℕ, ◌+◌, ltb, Bool, true, false, not, ◌&&◌, ◌||◌, Option, none, some, List, [], ◌∷◌, ◌++◌, map,
  any, reverse, take, ◌==◌, if◌then◌else◌, suc,
}
use warpbox.Base.Int.{ℤ, pos}
use warpbox.Base.Text.{Text, codes, text_eq, trim_prefix, index_byte}
use warpbox.Base.Assoc.{Assoc, lookup, insert}
use warpbox.Metadata.Record.{FileRecord, text_keys}
use warpbox.Metadata.Store.Dir.{list_dir}
use warpbox.Library.Filter.{Filter, apply}
use warpbox.Server.State.{Server, World}
use warpbox.Server.Answer.{Answer, error_reply, listing, panicked, Entry, mime_of}

abbrev pub webdav_root : Text
webdav_root = codes "/webdav"

-- Outside a virtual path there is no mount.
unfoldable pub root_for_request : Option Text → Text
root_for_request none = webdav_root
root_for_request (some []) = webdav_root
root_for_request (some (c ∷ s)) = c ∷ s

abbrev pub is_outside : Option Text → Bool
is_outside none = true
is_outside (some r) = false

abbrev pub internal_error : Answer
internal_error = error_reply 500 (codes "Internal Server Error")

drop_slashes : Text → Text
drop_slashes [] = []
drop_slashes (c ∷ s) = let rest = drop_slashes s in if c == b'/' then rest else c ∷ s

-- strings.TrimRight(path, "/")
unfoldable pub trim_right_slash : Text → Text
unfolding drop_slashes
trim_right_slash path = reverse (drop_slashes (reverse path))

abbrev pub normalised : Text → Text
normalised path = elim (trim_right_slash path) [ [] ↦ codes "/" | c ∷ s ↦ c ∷ s ]

abbrev pub strip : Text → Text → Text
strip path root = trim_prefix (trim_prefix path root) (codes "/")

-- With a slash at the end.
abbrev pub dir_href : Text → Text
dir_href path = elim (reverse path) [
  | [] ↦ codes "/"
  | c ∷ s ↦ if c == b'/' then path else path ++ codes "/"
]

abbrev pub dir_entry : Text → Text → Entry
dir_entry href created_at = record {
  href = href;
  is_dir = true;
  size = pos 0;
  name = [];
  mime = [];
  created_at = created_at;
}

-- The length of a text in UTF-8.
unfoldable pub byte_length : Text → ℕ
byte_length [] = 0
byte_length (c ∷ s) =
    let rest = byte_length s in
    (if ltb c 128 then 1 else if ltb c 2048 then 2 else if ltb c 65536 then 3 else 4) + rest

-- A date that the slice of formatLastModified runs past.
unfoldable pub is_short_date : Text → Bool
unfolding byte_length
is_short_date [] = false
is_short_date (c ∷ s) = ltb (byte_length (c ∷ s)) 19

-- `seen` holds the hrefs of the responses so far.
unfoldable pub append_response : Entry → List Entry → List Entry
append_response e responses =
    if any (λ r. text_eq r.href e.href) responses then responses else responses ++ e ∷ []

unfoldable pub append_all : List Entry → List Entry → List Entry
append_all [] responses = responses
append_all (e ∷ entries) responses = append_all entries (append_response e responses)

pub record ChildInfo : Type 0 where
  pub is_dir : Bool
  pub size : ℤ
  pub name : Text
  pub mime : Text
  pub created_at : Text

-- The part of a path before the first slash, and whether there is one.
abbrev pub immediate_name : Text → Text × Bool
immediate_name path = elim (index_byte path b'/') [
  | none ↦ (path, false)
  | some i ↦ (take i path, true)
]

-- A PROPFIND gives a directory the time of its first file.
abbrev pub child_info : Bool → Bool → FileRecord → ChildInfo
child_info dated true rec = record {
  is_dir = true;
  size = pos 0;
  name = [];
  mime = [];
  created_at = if dated then rec.created_at else [];
}
child_info dated false rec = record {
  is_dir = false;
  size = rec.size;
  name = rec.name;
  mime = mime_of rec;
  created_at = rec.created_at;
}

abbrev pub add_child : Text → ChildInfo → Assoc Text ChildInfo → Assoc Text ChildInfo
add_child name info m = elim (lookup name m) [ none ↦ insert name info m | some old ↦ m ]

-- The map of the children, from m on.
unfoldable pub immediate :
    Bool → Text → Assoc Text ChildInfo → List FileRecord → Assoc Text ChildInfo
immediate dated prefix m [] = m
immediate dated prefix m (rec ∷ records) =
    let (name, nested) = immediate_name (strip rec.path prefix) in
    immediate dated prefix (add_child name (child_info dated nested rec) m) records

abbrev pub child_entry : Text → Text × ChildInfo → Entry
child_entry base (name, info) = record {
  href = if info.is_dir then base ++ (name ++ codes "/") else base ++ name;
  is_dir = info.is_dir;
  size = info.size;
  name = info.name;
  mime = info.mime;
  created_at = info.created_at;
}

abbrev pub mount_entries : Text → List Filter → List Entry
mount_entries base filters =
    dir_entry (base ++ codes "__all__/") []
    ∷ map (λ f. dir_entry (base ++ (trim_prefix f.mount (codes "/") ++ codes "/")) []) filters

abbrev pub is_deep : Text → Bool
is_deep depth = text_eq depth (codes "1") || text_eq depth (codes "infinity")

abbrev pub filtered : Option Filter → List FileRecord → List FileRecord
filtered none records = records
filtered (some f) records = apply f records

-- formatLastModified slices the first 19 bytes of a date that is not empty, so a shorter one panics in
-- appendResponse, and with it the handler.
abbrev pub rendered : List Entry → Answer
rendered es = if any (λ e. is_short_date e.created_at) es then panicked else listing es

-- The order of rows with one name, the order of a map, and the filters of the server.
module _ (w : World) (by_name : List FileRecord → List FileRecord)
    (range_map : Assoc Text ChildInfo → Assoc Text ChildInfo) (filters : List Filter) where
  -- `mounts` is whether the directories of the virtual paths stand in for the root's files.
  abbrev pub children : Bool → Bool → Text → Text → List FileRecord → List Entry
  children dated true path prefix records =
      mount_entries (trim_right_slash path ++ codes "/") filters
  children dated false path prefix records =
      map (child_entry (trim_right_slash path ++ codes "/"))
        (range_map (immediate dated prefix [] records))

  unfoldable pub entries : Bool → Text → Bool → Text → Text → List FileRecord → List Entry
  entries dated depth mounts path prefix records =
      let own = append_response (dir_entry (dir_href path) []) [] in
      if is_deep depth then append_all (children dated mounts path prefix records) own else own

  -- serveDirListing, whose depth is 1 wherever it is called.
  unfoldable pub serve_dir_listing : Text → Option Filter → Text → Server → Answer × Server
  serve_dir_listing req_path f root s =
      let s₁ : Server = record s { events = suc s.events } in
      let path = normalised req_path in
      let prefix = strip path root in
      elim (w.query_error s.events) [
        | some e ↦ (internal_error, s₁)
        | none ↦
            let records = filtered f (list_dir by_name prefix s.store) in
            let mounts = text_eq prefix [] && text_eq root webdav_root in
            (rendered (entries false (codes "1") mounts path prefix records), s₁)
      ]

  -- `mount` is the root that the context holds, inside a virtual path.
  unfoldable pub handle_propfind :
      Text → Text → Option Filter → Option Text → Server → Answer × Server
  handle_propfind req_path depth_header f mount s =
      let s₁ : Server = record s { events = suc s.events } in
      let path = normalised req_path in
      let depth : Text = elim depth_header [ [] ↦ codes "1" | c ∷ d ↦ c ∷ d ] in
      let root = root_for_request mount in
      let prefix = strip path root in
      elim (w.query_error s.events) [
        | some e ↦ (internal_error, s₁)
        | none ↦
            let records = filtered f (list_dir by_name prefix s.store) in
            let mounts = text_eq prefix [] && is_outside mount in
            (rendered (entries true depth mounts path prefix records), s₁)
      ]
