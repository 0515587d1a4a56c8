-- ===== src/Examples/Catalogue.antt =====
-- The catalogue's theorems, from the API's lists to the filtered rows.
use warpbox.Base.{
  ℕ, ◌-◌, ◌≡◌, refl, true, Option, none, some, if◌then◌else◌, length, keep, any, arith,
}
use warpbox.Base.Int.{ℤ, pos}
use warpbox.Base.Text.{Text, codes}
use warpbox.Base.Result.{ok}
use warpbox.Torbox.Listing.{Api, ListFilesParams, list_generic}
use warpbox.Torbox.Listing.Complete.{list_generic_complete, window}
use warpbox.Metadata.Record.{FileSource, torrent, FileRecord}
use warpbox.Metadata.Store.{
  same_key, upsert_file, prune_by_sync_tag, set_cdn_url, set_file_size, get_next_sync_tag,
}
use warpbox.Metadata.Store.Upsert.{IsValid, find_row, stored, upsert_file_stores}
use warpbox.Metadata.Store.Prune.{is_current, prune_by_sync_tag_exact}
use warpbox.Metadata.Store.Valid.{IsValidAfter, writes_keep-IsValid}
use warpbox.Metadata.Sync.{sync_once}
use warpbox.Metadata.Sync.Rows.{of_source, failed_fetch_keeps_rows}
use warpbox.Library.Filter.{Filter, apply, keep_largest}
use warpbox.Library.Filter.Cached.{admits, apply-keep}
use warpbox.Examples.Data.{torrents, row, rows, shelf, no_errors, half_cycle, idle}

pub shelf-IsValid : IsValid shelf
unfolding same_key any
shelf-IsValid = record {
  unique = (refl, (refl, (refl, tt)));
  ids = (omega arith, (omega arith, (omega arith, omega arith)));
}

failed_fetch_keeps_rows_example :
    keep (of_source torrent) (sync_once half_cycle idle shelf).store.files
    ≡ keep (of_source torrent) rows
failed_fetch_keeps_rows_example =
    failed_fetch_keeps_rows torrent half_cycle idle shelf (codes "EOF") refl

upsert_file_stores_example :
    (find_row (row 2 7 9) (upsert_file none (row 2 7 6) shelf).1.files ≡ (
      if same_key (row 2 7 6) (row 2 7 9)
      then some (stored (row 2 7 6) 4 (find_row (row 2 7 6) rows))
      else find_row (row 2 7 9) rows))
    × IsValid (upsert_file none (row 2 7 6) shelf).1
upsert_file_stores_example = upsert_file_stores (row 2 7 6) (row 2 7 9) shelf shelf-IsValid

prune_by_sync_tag_exact_example :
    prune_by_sync_tag 4 no_errors (pos 5) torrent shelf
    ≡ some (
      ok (3 - length (keep (is_current (pos 5) torrent) rows)),
      record shelf { files = keep (is_current (pos 5) torrent) rows },
    )
prune_by_sync_tag_exact_example =
    prune_by_sync_tag_exact 4 no_errors (pos 5) torrent shelf refl (λ n. refl) (omega arith)

writes_keep-IsValid_example :
    ((e : Option Text) (f : FileRecord) → IsValid (upsert_file e f shelf).1)
    × ((errors : ℕ → Option Text) (id : ℕ) (url expires : Text)
        → IsValid (set_cdn_url errors id url expires shelf).1)
    × ((e : Option Text) (id : ℕ) (size : ℤ) → IsValid (set_file_size e id size shelf).1)
    × ((e : Option Text) → IsValid (get_next_sync_tag e shelf).1)
    × ((fuel : ℕ) (errors : ℕ → Option Text) (tag : ℤ) (source : FileSource)
        → IsValidAfter (prune_by_sync_tag fuel errors tag source shelf))
writes_keep-IsValid_example = writes_keep-IsValid shelf shelf-IsValid

-- Large enough files of shows, only the largest of an item.
abbrev large_shows : Filter
large_shows = record {
  mount = codes "shows";
  directory_include = some (λ name. true);
  directory_exclude = none;
  file_regex = none;
  largest_file_only = true;
  min_size = pos 150;
  max_size = pos 0;
}

apply-keep_example : apply large_shows rows ≡ keep_largest (keep (admits large_shows) rows)
apply-keep_example = apply-keep large_shows rows

-- A service that answers every request from its whole list.
abbrev prompt_api : Api
prompt_api = record {
  fetch = λ n offset limit. window torrents offset limit;
  cancelled = λ n. none;
}

abbrev one_a_page : ListFilesParams
one_a_page = record { offset = 0; page_size = pos 1; retry_attempts = 0; retry_backoff = 1 }

list_generic_complete_example :
    list_generic prompt_api (codes "/torrents") (codes "list") 2 one_a_page ≡ some (ok torrents)
list_generic_complete_example =
    list_generic_complete prompt_api (codes "/torrents") (codes "list") torrents one_a_page 2
      (λ n. refl) (λ n offset limit. refl) (omega arith)
