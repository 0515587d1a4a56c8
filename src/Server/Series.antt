-- ===== src/Server/Series.antt =====
-- internal/server/server.go: recordStats, the branch of startCleanupLoop that its ticker takes, and the
-- series that handleStatsJSON reads. The floats are parameters: float64 of an integer, and the
-- percentage of the API's successes.
pub mod Recorded
use warpbox.Base.{
  ℕ, ◌+◌, ◌-◌, ◌*◌, ◌/◌, ◌%◌, Option, none, some, List, [], ◌∷◌, ◌++◌, ltb, if◌then◌else◌, length,
  ◌==◌,
}
use warpbox.Base.Int.{ℤ, pos, ◌-ℤ◌, wrap64}
use warpbox.Base.Text.{Text, codes}
use warpbox.Base.Assoc.{Assoc}
use warpbox.Base.Result.{Result}
use warpbox.Metadata.Stats.{StatsRecord, record_stats, prune_stats, query_all_stats_since}
use warpbox.Throttle.Queue.{Stats}
use warpbox.Server.State.{Server, Config, minute}
use warpbox.Server.Health.{ApiHealth, requestdl_health}
use warpbox.Server.Metrics.{throttle_stats}
use warpbox.Server.Browser.{text_lt}

-- runtime.MemStats, as far as it is read
pub record MemStats : Type 0 where
  pub sys : ℕ
  pub alloc : ℕ
  pub heap_objects : ℕ
  pub num_gc : ℕ

-- The counters at the last sample.
pub record Previous : Type 0 where
  pub successful_calls : ℕ
  pub failed_calls : ℕ
  pub http_429_calls : ℕ
  pub db_lock_errors : ℕ
  pub num_gc : ℕ

abbrev pub new_previous : Previous
new_previous = record {
  successful_calls = 0;
  failed_calls = 0;
  http_429_calls = 0;
  db_lock_errors = 0;
  num_gc = 0;
}

-- What one tick finds: the server and the counters of its queues, the memory, the driver's errors, and
-- the clock when the rows are pruned. The rows are written at the server's clock.
pub record Tick : Type 0 where
  pub server : Server
  pub playback : Stats
  pub sync : Option Stats
  pub mem : MemStats
  pub record_error : Option Text
  pub prune_error : Option Text
  pub later : ℕ

abbrev pub counters : Tick → Previous
counters t =
    let throttle = throttle_stats t.playback t.sync in
    record {
      successful_calls = throttle.successful_calls;
      failed_calls = throttle.failed_calls;
      http_429_calls = throttle.http_429_calls;
      db_lock_errors = t.server.store.db_lock_errors;
      num_gc = t.mem.num_gc;
    }

-- int64 counters
abbrev pub delta : ℕ → ℕ → ℤ
delta now before = wrap64 (pos now -ℤ pos before)

-- uint32 counters
abbrev pub delta32 : ℕ → ℕ → ℤ
delta32 now before = pos ((now + 4_294_967_296 - before) % 4_294_967_296)

module _ {Value : Type 0} (float64 : ℤ → Value) (percent : ℕ → ℕ → Value) where
  unfoldable pub interval_metrics : Previous → Previous → Assoc Text Value
  interval_metrics now prev =
      (codes "api_calls_success", float64 (delta now.successful_calls prev.successful_calls))
      ∷ (codes "api_calls_failed", float64 (delta now.failed_calls prev.failed_calls))
      ∷ (codes "api_calls_429", float64 (delta now.http_429_calls prev.http_429_calls))
      ∷ (codes "db_lock_errors", float64 (delta now.db_lock_errors prev.db_lock_errors))
      ∷ (codes "gc_cycles", float64 (delta32 now.num_gc prev.num_gc))
      ∷ []

  unfoldable pub gauges : MemStats → Server → Assoc Text Value
  gauges mem s =
      (codes "sys_mb", float64 (pos (mem.sys / 1024 / 1024)))
      ∷ (codes "alloc_mb", float64 (pos (mem.alloc / 1024 / 1024)))
      ∷ (codes "heap_objects", float64 (pos mem.heap_objects))
      ∷ (codes "negative_cache_entries", float64 (pos (length s.negative_cache)))
      ∷ (codes "circuit_breaker_entries", float64 (pos (length s.torrent_failures)))
      ∷ []

  -- The gauge of the API's health, if its window has samples.
  unfoldable pub health_gauge : ApiHealth → Assoc Text Value
  health_gauge h =
      if ltb 0 h.samples
      then (codes "requestdl_success_ratio", percent h.successes h.samples) ∷ []
      else []

  unfoldable pub record_server_stats :
      Config → Tick → Previous → List (StatsRecord Value) → Previous × List (StatsRecord Value)
  record_server_stats cfg t prev table = (
    counters t,
    (record_stats t.record_error t.server.clock
        (interval_metrics (counters t) prev
          ++ gauges t.mem t.server
          ++ health_gauge (requestdl_health cfg t.server))
        table).1,
  )

  -- recordStats, and PruneStats if rows are not kept for ever.
  unfoldable pub stats_tick :
      Config → ℕ → Tick → Previous × List (StatsRecord Value) → Previous × List (StatsRecord Value)
  unfolding record_server_stats
  stats_tick cfg retention t (prev, table) =
      let (now, written) = record_server_stats cfg t prev table in
      (
        now,
        if ltb 0 retention
            then (prune_stats t.prune_error t.later retention written).1
            else written,
      )

  unfoldable pub stats_ticks :
      Config
      → ℕ
      → List Tick
      → Previous × List (StatsRecord Value)
      → Previous × List (StatsRecord Value)
  unfolding stats_tick
  stats_ticks cfg retention [] st = st
  stats_ticks cfg retention (t ∷ ts) st =
      stats_ticks cfg retention ts (stats_tick cfg retention t st)

-- The start of the charts; `chart_minutes` is the setting.
unfoldable pub chart_since : ℕ → ℕ → ℕ
chart_since chart_minutes now = now - (if chart_minutes == 0 then 60 else chart_minutes) * minute

unfoldable pub stats_json :
    {Value : Type 0}
    → Option Text
    → ℕ
    → ℕ
    → List (StatsRecord Value)
    → Result (Assoc Text (List (StatsRecord Value)))
unfolding chart_since
stats_json e chart_minutes now table =
    query_all_stats_since text_lt e (chart_since chart_minutes now) table
