-- ===== src/Server/State.antt =====
-- internal/server/server.go: the state of the server and its configuration. Durations and times are
-- nanoseconds; 0 is Go's zero time. A lock held over a block makes it one step of the model.
use warpbox.Base.{ℕ, Bool, false, Option, none, List, []}
use warpbox.Base.Int.{ℤ}
use warpbox.Base.Text.{Text}
use warpbox.Base.Assoc.{Assoc}
use warpbox.Metadata.Record.{FileSource}
use warpbox.Metadata.Store.{Store}
use warpbox.Torbox.Client.{Reply}

abbrev pub second : ℕ
second = 1_000_000_000

abbrev pub minute : ℕ
minute = 60_000_000_000

abbrev pub hour : ℕ
hour = 3_600_000_000_000

pub data FailureKind : Type 0 where
  auth transient database_error : FailureKind

pub record NegativeCacheEntry : Type 0 where
  pub error : Text
  pub expires_at : ℕ

-- `err_kind` is none until the first failure is recorded.
pub record TorrentFailureTracker : Type 0 where
  pub failures : List ℕ
  pub stale_until : ℕ
  pub err_kind : Option FailureKind
  pub last_err : Text
  pub error_code : Text
  pub tripped_at : ℕ
  pub escalations : ℕ
  pub quarantine_notified : Bool

abbrev pub empty_tracker : TorrentFailureTracker
empty_tracker = record {
  failures = [];
  stale_until = 0;
  err_kind = none;
  last_err = [];
  error_code = [];
  tripped_at = 0;
  escalations = 0;
  quarantine_notified = false;
}

pub record RequestdlOutcome : Type 0 where
  pub at : ℕ
  pub ok : Bool

-- The settings are not negative: config.validate refuses negative ones.
pub record Config : Type 0 where
  pub cdn_ttl_minutes : ℕ
  pub cdn_url_auto_repair : Bool
  pub cdn_url_repair_retries : ℕ
  pub cdn_url_retry_backoff : ℕ
  pub cdn_url_retry_count : ℕ
  pub cdn_url_429_backoff_seconds : ℕ
  pub max_cdn_connections : ℕ
  pub negative_cache_ttl_seconds : ℕ
  pub circuit_breaker_failures : ℕ
  pub circuit_breaker_window_sec : ℕ
  pub circuit_breaker_stale_min : ℕ
  pub circuit_breaker_max_stale_min : ℕ
  pub negative_cache_max_entries : ℕ
  pub circuit_breaker_max_entries : ℕ
  pub api_health_window_seconds : ℕ

-- A requestdl call, as the API sees it.
pub record ApiCall : Type 0 where
  pub source : FileSource
  pub item_id : ℤ
  pub file_id : ℤ

-- `clock` is what time.Now() reads. `events` counts the dealings with the outside so far, and picks
-- their answers in the world. `calls` logs the requestdl calls, the latest first. `cdn_in_use`
-- counts the slots taken from the CDN semaphore.
pub record Server : Type 0 where
  pub clock : ℕ
  pub events : ℕ
  pub calls : List ApiCall
  pub negative_cache : Assoc Text NegativeCacheEntry
  pub torrent_failures : Assoc ℤ TorrentFailureTracker
  pub outcomes : List RequestdlOutcome
  pub store : Store
  pub cdn_in_use : ℕ

-- What the CDN answers to a ranged GET: a network error, or a status, the two headers that the code
-- reads, and the body.
pub data CdnReply : Type 0 where
  network_error : CdnReply
  cdn_response : ℕ → Text → Text → Text → CdnReply

-- The world outside: the n-th event has the n-th answer. `elapsed` is the time that a call takes, the
-- wait in the throttle queue included; `cdn_get` takes the URL and the bounds of the Range header, and
-- `write_error` the attempt of a statement. `valid_url` is whether http.NewRequest takes a URL, `quote`
-- is fmt's %q, and `format_time` and `parse_time` are RFC 3339.
pub record World : Type 0 where
  pub requestdl_path : FileSource → Text
  pub requestdl : ℕ → ApiCall → Reply Text
  pub cdn_get : ℕ → Text → ℤ → ℤ → CdnReply
  pub elapsed : ℕ → ℕ
  pub query_error : ℕ → Option Text
  pub write_error : ℕ → ℕ → Option Text
  pub valid_url : Text → Bool
  pub quote : Text → Text
  pub format_time : ℕ → Text
  pub parse_time : Text → Option ℕ
