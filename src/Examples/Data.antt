-- ===== src/Examples/Data.antt =====
-- Two shows of three files, as the API lists them and as the store keeps them.
use warpbox.Base.{ℕ, ◌+◌, ◌*◌, true, false, Option, none, some, List, [], ◌∷◌}
use warpbox.Base.Int.{pos}
use warpbox.Base.Text.{Text, codes}
use warpbox.Base.Result.{ok, err}
use warpbox.Torbox.Listing.{Torrent, TorrentFile}
use warpbox.Metadata.Record.{FileRecord, zero_record}
use warpbox.Metadata.Store.{Store}
use warpbox.Metadata.Sync.{Cycle, SyncWorker}

abbrev pub episode : ℕ → TorrentFile
episode n = record {
  id = pos n;
  name = codes "Show/S01E01.mkv";
  size = pos (700 + n);
  mime_type = codes "video/x-matroska";
  s3_path = codes "hash/Show: A/S01?.mkv";
  short_name = codes "S01?.mkv";
}

abbrev pub show : ℕ → List TorrentFile → Torrent
show n files = record {
  id = pos n;
  name = codes "Show";
  download_state = codes "cached";
  download_present = true;
  files = files;
  created_at = codes "2025-01-01";
}

abbrev pub torrents : List Torrent
torrents = show 7 (episode 1 ∷ episode 2 ∷ []) ∷ []

abbrev pub downloads : List Torrent
downloads = show 7 (episode 1 ∷ []) ∷ []

abbrev pub row : ℕ → ℕ → ℕ → FileRecord
row n item tag = record zero_record {
  id = n;
  item_id = pos item;
  file_id = pos n;
  path = codes "Show/a.mkv";
  size = pos (100 * n);
  sync_tag = pos tag;
}

-- Three rows of two items: two of the tag 4, one of the tag 5.
abbrev pub rows : List FileRecord
rows = row 1 7 4 ∷ row 2 7 5 ∷ row 3 8 4 ∷ []

abbrev pub shelf : Store
shelf = record { files = rows; last_id = 3; sync_tag = some (pos 5); db_lock_errors = 0 }

abbrev pub no_errors : ℕ → Option Text
no_errors n = none

abbrev pub quiet_cycle : Cycle
quiet_cycle = record {
  on_items_added = true;
  on_items_removed = true;
  on_sync_done = true;
  torrents = ok torrents;
  usenet_items = ok downloads;
  tag_error = none;
  torrent_errors = no_errors;
  usenet_errors = no_errors;
  torrent_prune_errors = no_errors;
  usenet_prune_errors = no_errors;
  old_items_error = none;
  new_items_error = none;
  live_items_error = none;
  now = 1000;
}

abbrev pub half_cycle : Cycle
half_cycle = record quiet_cycle { torrents = err (codes "EOF") }

abbrev pub idle : SyncWorker
idle = record { syncing = false; last_error = none; last_success = 0 }
