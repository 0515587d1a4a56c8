-- ===== src/Server/Metrics.antt =====
-- internal/server/server.go: throttleStats, the counters of the queue of playback and, if it is wired,
-- of the queue of the sync worker.
pub mod Both
use warpbox.Base.{◌+◌, Option, none, some, ltb, if◌then◌else◌}
use warpbox.Throttle.Queue.{Stats}

unfoldable pub throttle_stats : Stats → Option Stats → Stats
throttle_stats total none = total
throttle_stats total (some sync) = record total {
  total_calls = total.total_calls + sync.total_calls;
  successful_calls = total.successful_calls + sync.successful_calls;
  failed_calls = total.failed_calls + sync.failed_calls;
  http_429_calls =
      if ltb total.http_429_calls sync.http_429_calls
      then sync.http_429_calls
      else total.http_429_calls;
  calls_last_minute = total.calls_last_minute + sync.calls_last_minute;
}
