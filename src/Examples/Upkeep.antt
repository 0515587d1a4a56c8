-- ===== src/Examples/Upkeep.antt =====
-- The theorems of the log buffer, of the sync worker's goroutines, and of what a sync forgets.
use warpbox.Base.{
  ℕ, ◌≡◌, ◌≢◌, ◌↔◌, refl, arith, true, false, none, some, [], ◌∷◌, map, take, if◌then◌else◌, any,
}
use warpbox.Base.Int.{ℤ, pos, eq_int}
use warpbox.Base.Text.{codes}
use warpbox.Base.Assoc.{lookup}
use warpbox.Metadata.Record.{torrent, int_keys, text_keys}
use warpbox.Metadata.Sync.{sync_once}
use warpbox.Metadata.Worker.{
  update, opened, new_worker, Pc, entry, cycling, back, joining, System, Reach, begin, later, move,
  start, enter, finish, leave, in_loop, stop,
}
use warpbox.Metadata.Worker.Invariant.{is_cycling, loop_of}
use warpbox.Metadata.Worker.Exclusive.{one_cycle, no_leftover}
use warpbox.Server.Fetch.{cdn_cache_key}
use warpbox.Server.Missing.{is_live, prune_breaker_for_missing_items, after_sync}
use warpbox.Server.Missing.Forgets.{prune-Forgets}
use warpbox.Server.Missing.Synced.{after_sync-sync_once}
use warpbox.Server.Logs.{LogRecord, format_record, lines}
use warpbox.Server.Logs.Recent.{logged, wanted, lines-logged}
use warpbox.Examples.Data.{quiet_cycle, idle, shelf}
use warpbox.Examples.Setup.{server}

-- One goroutine starts the worker and runs a cycle, another one stops it.
abbrev stopped_system : System
stopped_system = record {
  worker = record (opened new_worker) {
    cancel = none;
    cancelled = update (λ g. false) 0 true;
    closed = update (λ g. false) 0 true;
  };
  pc =
      update
        (update
          (update (update (update (λ i. Pc.idle) 0 (entry (in_loop 0))) 0 (cycling (in_loop 0))) 0
            (back (in_loop 0)))
          1 (joining (some 0) false))
        0 Pc.idle;
}

stopped_system-Reach : Reach stopped_system
unfolding update
stopped_system-Reach =
    later
      (later (later (later (later begin (move 0 start)) (move 0 (enter refl))) (move 0 finish))
        (move 1 (stop false)))
      (move 0 (leave refl))

no_leftover_example : loop_of (stopped_system.pc 0) ≢ some 0
unfolding update
no_leftover_example = no_leftover stopped_system 0 0 stopped_system-Reach refl

one_cycle_example :
    ((i j : ℕ)
      → is_cycling (stopped_system.pc i) ≡ true
      → is_cycling (stopped_system.pc j) ≡ true
      → i ≡ j)
    × ((stopped_system.worker.syncing ≡ true)
        ↔ ((i : ℕ) × (is_cycling (stopped_system.pc i) ≡ true)))
one_cycle_example = one_cycle stopped_system stopped_system-Reach

abbrev log_record : LogRecord
log_record = record {
  time = codes "2025-01-01T00:00:00.000Z";
  level = codes "INFO";
  message = codes "ready";
  attrs = record { is_group = false; key = codes "n"; value = codes "1" } ∷ [];
}

lines-logged_example :
    lines (ℤ.pos 2) (logged (log_record ∷ log_record ∷ log_record ∷ []))
    ≡ take (wanted (ℤ.pos 2)) (map format_record (log_record ∷ log_record ∷ log_record ∷ []))
lines-logged_example = lines-logged (log_record ∷ log_record ∷ log_record ∷ []) (pos 2)

prune-Forgets_example :
    let s' = prune_breaker_for_missing_items (pos 7 ∷ []) server in
    let key = cdn_cache_key torrent (pos 8) (pos 3) in
    (lookup (pos 7) s'.torrent_failures
      ≡ (if is_live (pos 7 ∷ []) (pos 7) then lookup (pos 7) server.torrent_failures else none))
    × (lookup key s'.negative_cache
        ≡ (if is_live (pos 7 ∷ []) (pos 8) then lookup key server.negative_cache else none))
prune-Forgets_example =
    prune-Forgets (pos 7 ∷ []) server (pos 7) (pos 8) (pos 3) torrent (omega arith)

after_sync-sync_once_example :
    lookup (pos 7) (after_sync (sync_once quiet_cycle idle shelf) server).torrent_failures ≡ (
      if any (λ row. eq_int (pos 7) row.item_id) (sync_once quiet_cycle idle shelf).store.files
      then lookup (pos 7) server.torrent_failures
      else none)
after_sync-sync_once_example =
    after_sync-sync_once quiet_cycle idle shelf server (pos 7) refl refl refl refl
