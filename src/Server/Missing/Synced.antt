-- ===== src/Server/Missing/Synced.antt =====
-- The sync worker's OnSyncDone and the circuit breaker: what a cycle leaves of the quarantine.
use warpbox.Base.{
  ◌≡◌, refl, ◌∙◌, Bool, true, false, none, some, List, [], ◌∷◌, map, any, if◌then◌else◌, arith,
}
use warpbox.Base.Int.{ℤ, eq_int}
use warpbox.Base.Assoc.{lookup}
use warpbox.Metadata.Record.{FileRecord, int_keys, eq_int_iff}
use warpbox.Metadata.Store.{
  Store, ItemDir, item_dir, item_dir_eq, distinct_dirs, list_item_dirs, get_next_sync_tag,
}
use warpbox.Metadata.Sync.{Cycle, SyncWorker, run_cycle, store_cycle, sync_once}
use warpbox.Server.State.{Server}
use warpbox.Server.Missing.{is_live, on_sync_done, after_sync, prune_breaker_for_missing_items}
use warpbox.Server.Missing.Forgets.{lookup-keep}

abbrev of_item : ℤ → ItemDir → Bool
of_item id d = eq_int id d.item_id

same_item :
    (id : ℤ) (d : ItemDir) (ds : List ItemDir)
    → any (item_dir_eq d) ds ≡ true
    → of_item id d ≡ true
    → any (of_item id) ds ≡ true
unfolding any
same_item id d [] h own = cc
same_item id d (e ∷ ds) h own = ground (
  arith,
  same_item id d ds,
  eq_int_iff id d.item_id,
  eq_int_iff d.item_id e.item_id,
  eq_int_iff id e.item_id,
)

any-distinct_dirs :
    (id : ℤ) (ds : List ItemDir) → any (of_item id) (distinct_dirs ds) ≡ any (of_item id) ds
unfolding any distinct_dirs
any-distinct_dirs id [] = refl
any-distinct_dirs id (d ∷ ds) =
    ground (arith, any-distinct_dirs id ds, same_item id d (distinct_dirs ds))

any-rows :
    (id : ℤ) (rows : List FileRecord)
    → any (of_item id) (map item_dir rows) ≡ any (λ row. eq_int id row.item_id) rows
unfolding any item_dir
any-rows id [] = refl
any-rows id (row ∷ rows) = ground (arith, any-rows id rows)

any-ids : (id : ℤ) (ds : List ItemDir) → is_live (map (λ d. d.item_id) ds) id ≡ any (of_item id) ds
unfolding is_live any
any-ids id [] = refl
any-ids id (d ∷ ds) = ground (arith, any-ids id ds)

is_live-rows :
    (id : ℤ) (s : Store)
    → is_live (map (λ d. d.item_id) (list_item_dirs s)) id
      ≡ any (λ row. eq_int id row.item_id) s.files
unfolding list_item_dirs
is_live-rows id s =
    any-ids id (distinct_dirs (map item_dir s.files))
    ∙ any-distinct_dirs id (map item_dir s.files)
    ∙ any-rows id s.files

-- A cycle that takes the items in the store hands over those of the store it leaves.
live_lem :
    (c : Cycle) (w : SyncWorker) (s : Store)
    → w.syncing ≡ false
    → c.tag_error ≡ none
    → c.on_sync_done ≡ true
    → c.live_items_error ≡ none
    → (sync_once c w s).live ≡ some (list_item_dirs (sync_once c w s).store)
unfolding sync_once get_next_sync_tag store_cycle
live_lem c w s free tagged done fine =
    rw (free, tagged, sync_once, run_cycle, done, fine, get_next_sync_tag) refl

-- A cycle that runs, gets its tag and reads the items at its end leaves the failures of an item as they
-- are if the store still has a row of an item with that id, and else forgets them.
pub after_sync-sync_once :
    (c : Cycle) (w : SyncWorker) (st : Store) (s : Server) (id : ℤ)
    → w.syncing ≡ false
    → c.tag_error ≡ none
    → c.on_sync_done ≡ true
    → c.live_items_error ≡ none
    → lookup id (after_sync (sync_once c w st) s).torrent_failures ≡ (
        if any (λ row. eq_int id row.item_id) (sync_once c w st).store.files
        then lookup id s.torrent_failures
        else none)
unfolding after_sync on_sync_done prune_breaker_for_missing_items
after_sync-sync_once c w st s id free tagged done fine =
    let live = map (λ d. d.item_id) (list_item_dirs (sync_once c w st).store) in
    rw (live_lem c w st free tagged done fine, after_sync)
      (lookup-keep (is_live live) id s.torrent_failures
        ∙ rw (is_live-rows id (sync_once c w st).store) refl)
