-- ===== src/Metadata/Sync.antt =====
-- internal/metadata/sync.go: file records from the API's items, and one sync cycle.
pub mod Paths
pub mod Rows
pub mod Tags
pub mod Complete
use warpbox.Base.{
  ℕ, zero, suc, ◌+◌, ◌<◌, Bool, true, false, not, ◌&&◌, ◌||◌, Option, none, some, List, [], ◌∷◌,
  ◌++◌, map, ◌==◌, ltb, if◌then◌else◌, length, drop,
}
use warpbox.Base.Int.{ℤ, pos, lt_int}
use warpbox.Base.Text.{Text, codes, text_eq, index_byte}
use warpbox.Base.Assoc.{Assoc, lookup, insert, KeyEq}
use warpbox.Base.Result.{Result, ok, err}
use warpbox.Torbox.Listing.{Torrent, TorrentFile}
use warpbox.Metadata.Record.{FileSource, torrent, usenet, FileRecord, ItemKey, item_key_keys}
use warpbox.Metadata.Store.{
  Store, ItemDir, upsert_file, get_next_sync_tag, prune_by_sync_tag, list_item_dirs,
}

-- The characters \ / : * ? " < > | and &
unfoldable pub is_reserved : ℕ → Bool
is_reserved c =
    (c == b'\\')
    || (c == b'/')
    || (c == b':')
    || (c == b'*')
    || (c == b'?')
    || (c == 34)
    || (c == b'<')
    || (c == b'>')
    || (c == b'|')
    || (c == b'&')

-- All of them are printable, so each becomes an underscore.
unfoldable pub sanitize_char : ℕ → ℕ
unfolding is_reserved
sanitize_char c = if is_reserved c then b'_' else c

unfoldable pub sanitize_path_segment : Text → Text
sanitize_path_segment s = map sanitize_char s

-- strings.Split(s, "/"), with the segment that is being read in front
unfoldable pub split_slash : Text → Text → List Text
split_slash cur [] = cur ∷ []
split_slash cur (c ∷ s) = elim (c == b'/') [
  | true ↦ cur ∷ split_slash [] s
  | false ↦ split_slash (cur ++ c ∷ []) s
]

-- strings.Join(segments, "/")
unfoldable pub join_slash : List Text → Text
join_slash [] = []
join_slash (s ∷ []) = s
join_slash (s ∷ t ∷ rest) = s ++ (b'/' ∷ join_slash (t ∷ rest))

-- The virtual path: s3_path without its first segment, or the short name.
abbrev pub rest_path : Text → Text
rest_path rest = elim (index_byte rest b'/') [
  | some _ ↦ join_slash (map sanitize_path_segment (split_slash [] rest))
  | none ↦ sanitize_path_segment rest
]

unfoldable pub virtual_path : TorrentFile → Text
virtual_path f = elim (index_byte f.s3_path b'/') [
  | none ↦ sanitize_path_segment f.short_name
  | some idx ↦
      if ltb 0 idx && ltb (suc idx) (length f.s3_path)
      then rest_path (drop (suc idx) f.s3_path)
      else sanitize_path_segment f.short_name
]

unfoldable pub build_file_record : ℤ → TorrentFile → ℤ → FileSource → Text → FileRecord
build_file_record item_id f sync_tag source created_at = record {
  id = 0;
  item_id = item_id;
  file_id = f.id;
  source = source;
  name = sanitize_path_segment f.short_name;
  path = virtual_path f;
  size = f.size;
  mime_type = f.mime_type;
  created_at = created_at;
  cdn_url = [];
  cdn_url_expiry = [];
  sync_tag = sync_tag;
}

-- Items that are not cached and not present are passed over.
unfoldable pub records_of_files : ℤ → FileSource → Torrent → List TorrentFile → List FileRecord
records_of_files tag source t [] = []
records_of_files tag source t (f ∷ files) =
    build_file_record t.id f tag source t.created_at ∷ records_of_files tag source t files

unfoldable pub records_of : ℤ → FileSource → List Torrent → List FileRecord
unfolding records_of_files
records_of tag source [] = []
records_of tag source (t ∷ items) =
    (if not (text_eq t.download_state (codes "cached")) && not t.download_present
      then []
      else records_of_files tag source t t.files)
    ++ records_of tag source items

-- The upserts of a source: `errors` answers the n-th upsert; a failed one is passed over.
unfoldable pub upsert_all : (ℕ → Option Text) → ℕ → List FileRecord → Store → Store
upsert_all errors n [] s = s
upsert_all errors n (rec ∷ records) s =
    upsert_all errors (suc n) records (upsert_file (errors n) rec s).1

abbrev pub DirMap : Type 0
DirMap = Assoc ItemKey Text

unfoldable pub dir_map : List ItemDir → DirMap → DirMap
dir_map [] m = m
dir_map (it ∷ items) m =
    dir_map items (insert (record { source = it.source; item_id = it.item_id }) it.dir m)

-- The directories of the keys of the first map that the second lacks, in the map's own order.
unfoldable pub missing_from : DirMap → DirMap → List Text
missing_from [] other = []
missing_from ((k, dir) ∷ m) other = elim (lookup k other) [
  | none ↦ dir ∷ missing_from m other
  | some _ ↦ missing_from m other
]

-- The calls of OnItemsAdded and OnItemsRemoved.
pub record Hooks : Type 0 where
  pub added : Option (List Text)
  pub removed : Option (List Text)

abbrev nonempty : Bool → List Text → Option (List Text)
nonempty registered [] = none
nonempty registered (d ∷ ds) = if registered then some (d ∷ ds) else none

unfoldable pub fire_change_hooks : Bool → Bool → List ItemDir → List ItemDir → Hooks
unfolding dir_map missing_from
fire_change_hooks on_added on_removed old_items new_items =
    let old_set = dir_map old_items [] in
    let new_set = dir_map new_items [] in
    record {
      added = nonempty on_added (missing_from new_set old_set);
      removed = nonempty on_removed (missing_from old_set new_set);
    }

pub record SyncWorker : Type 0 where
  pub syncing : Bool
  pub last_error : Option Text
  pub last_success : ℕ

-- What one cycle meets outside: which hooks are registered, the two fetched lists, the driver's
-- errors, and the time at its end.
pub record Cycle : Type 0 where
  pub on_items_added : Bool
  pub on_items_removed : Bool
  pub on_sync_done : Bool
  pub torrents : Result (List Torrent)
  pub usenet_items : Result (List Torrent)
  pub tag_error : Option Text
  pub torrent_errors : ℕ → Option Text
  pub usenet_errors : ℕ → Option Text
  pub torrent_prune_errors : ℕ → Option Text
  pub usenet_prune_errors : ℕ → Option Text
  pub old_items_error : Option Text
  pub new_items_error : Option Text
  pub live_items_error : Option Text
  pub now : ℕ

pub record Outcome : Type 0 where
  pub worker : SyncWorker
  pub store : Store
  pub hooks : Hooks
  pub live : Option (List ItemDir)

abbrev pub no_hooks : Hooks
no_hooks = record { added = none; removed = none }

-- A failed fetch leaves the list empty.
abbrev pub fetched : Result (List Torrent) → List Torrent
fetched (ok items) = items
fetched (err e) = []

abbrev error_of : Result (List Torrent) → Option Text
error_of (ok items) = none
error_of (err e) = some e

abbrev first_error : Option Text → Option Text → Option Text
first_error (some e) other = some e
first_error none other = other

abbrev recorded : Option Text → ℕ → SyncWorker → SyncWorker
recorded none now w = record w { last_error = none; last_success = now }
recorded (some e) now w = record w { last_error = some e }

-- A source is pruned only if its fetch succeeded. The fuel is one batch for each row, and one more.
unfoldable pub prune_source :
    Result (List Torrent) → (ℕ → Option Text) → ℤ → FileSource → Store → Store
prune_source (err e) errors tag source s = s
prune_source (ok items) errors tag source s =
    if lt_int (pos 0) tag
    then elim (prune_by_sync_tag (suc (length s.files)) errors tag source s) [
      | none ↦ s
      | some (r, s') ↦ s'
    ]
    else s

-- The items as ListItemDirs gives them, or none on an error.
abbrev listed : Option Text → Store → List ItemDir
listed none s = list_item_dirs s
listed (some e) s = []

abbrev old_items : Cycle → Store → List ItemDir
old_items c s = if c.on_items_added || c.on_items_removed then listed c.old_items_error s else []

-- The store after the upserts and the prunes of a cycle that got its tag.
unfoldable pub store_cycle : Cycle → ℤ → Store → Store
store_cycle c tag s =
    let s₁ = upsert_all c.torrent_errors 0 (records_of tag torrent (fetched c.torrents)) s in
    let s₂ = upsert_all c.usenet_errors 0 (records_of tag usenet (fetched c.usenet_items)) s₁ in
    let s₃ = prune_source c.torrents c.torrent_prune_errors tag torrent s₂ in
    prune_source c.usenet_items c.usenet_prune_errors tag usenet s₃

abbrev change_hooks : Cycle → List ItemDir → Store → Hooks
change_hooks c [] s = no_hooks
change_hooks c (o ∷ olds) s =
    if c.on_items_added || c.on_items_removed
    then elim (listed c.new_items_error s) [
      | [] ↦ no_hooks
      | n ∷ news ↦ fire_change_hooks c.on_items_added c.on_items_removed (o ∷ olds) (n ∷ news)
    ]
    else no_hooks

abbrev live_items : Cycle → Store → Option (List ItemDir)
live_items c s =
    if c.on_sync_done
    then elim c.live_items_error [ none ↦ some (list_item_dirs s) | some _ ↦ none ]
    else none

-- A cycle behind GetNextSyncTag: `s` is the store at its start, `s₀` the store now.
unfoldable pub run_cycle : Cycle → SyncWorker → Store → Result ℤ → Store → Outcome
run_cycle c w s (err e) s₀ = record { worker = w; store = s₀; hooks = no_hooks; live = none }
run_cycle c w s (ok tag) s₀ =
    let s' = store_cycle c tag s₀ in
    record {
      worker = recorded (first_error (error_of c.torrents) (error_of c.usenet_items)) c.now w;
      store = s';
      hooks = change_hooks c (old_items c s) s';
      live = live_items c s';
    }

-- The guard `syncing` is set during the cycle and clear again behind it.
unfoldable pub sync_once : Cycle → SyncWorker → Store → Outcome
unfolding run_cycle
sync_once c w s =
    if w.syncing
    then record { worker = w; store = s; hooks = no_hooks; live = none }
    else (let (tagged, s₀) = get_next_sync_tag c.tag_error s in run_cycle c w s tagged s₀)
