-- ===== src/Config/Defaults.antt =====
-- internal/config/config.go: setDefaults, section by section.
use warpbox.Base.{true, Option, none, some, [], ◌∷◌, if◌then◌else◌}
use warpbox.Base.Int.{ℤ, pos, eq_int}
use warpbox.Base.Text.{Text, codes}
use warpbox.Config.{TorBoxConfig, CacheConfig, SyncConfig, StatsConfig, Config}

abbrev pub or_int : ℤ → ℤ → ℤ
or_int d n = if eq_int n (pos 0) then d else n

abbrev pub or_text : Text → Text → Text
or_text d [] = d
or_text d (c ∷ s) = c ∷ s

abbrev pub or_nil {ℓ} : {A : Type ℓ} → A → Option A → Option A
or_nil d none = some d
or_nil d (some a) = some a

abbrev pub torbox_defaults : TorBoxConfig → TorBoxConfig
torbox_defaults c = record c { request_timeout_seconds = or_int (pos 90) c.request_timeout_seconds }

abbrev pub cache_defaults : CacheConfig → CacheConfig
cache_defaults c = record {
  cdn_url_ttl_minutes = or_int (pos 120) c.cdn_url_ttl_minutes;
  cdn_url_auto_repair = or_nil true c.cdn_url_auto_repair;
  cdn_url_repair_retries = or_nil (pos 2) c.cdn_url_repair_retries;
  cdn_url_retry_backoff = or_nil (pos 1) c.cdn_url_retry_backoff;
  cdn_url_retry_count = or_nil (pos 1) c.cdn_url_retry_count;
  negative_cache_ttl_seconds = or_nil (pos 30) c.negative_cache_ttl_seconds;
  circuit_breaker_failures = or_nil (pos 5) c.circuit_breaker_failures;
  circuit_breaker_window_sec = or_nil (pos 600) c.circuit_breaker_window_sec;
  circuit_breaker_stale_min = or_nil (pos 5) c.circuit_breaker_stale_min;
  circuit_breaker_max_stale_minutes = or_nil (pos 60) c.circuit_breaker_max_stale_minutes;
  negative_cache_max_entries = or_nil (pos 5000) c.negative_cache_max_entries;
  circuit_breaker_max_entries = or_nil (pos 2000) c.circuit_breaker_max_entries;
  cleanup_interval_seconds = or_nil (pos 60) c.cleanup_interval_seconds;
  max_cdn_connections = or_nil (pos 4) c.max_cdn_connections;
  cdn_proxy_timeout_seconds = or_int (pos 30) c.cdn_proxy_timeout_seconds;
  cdn_url_429_backoff_seconds = or_int (pos 30) c.cdn_url_429_backoff_seconds;
}

abbrev pub sync_defaults : SyncConfig → SyncConfig
sync_defaults c = record c {
  interval_minutes = or_int (pos 5) c.interval_minutes;
  list_page_size = or_int (pos 5000) c.list_page_size;
  retry_attempts = or_nil (pos 3) c.retry_attempts;
  retry_backoff = or_nil (pos 1) c.retry_backoff;
}

abbrev pub stats_defaults : StatsConfig → StatsConfig
stats_defaults c = record {
  interval_seconds = or_int (pos 60) c.interval_seconds;
  retention_hours = or_int (pos 24) c.retention_hours;
  chart_minutes = or_int (pos 60) c.chart_minutes;
  api_health_window_seconds = or_int (pos 300) c.api_health_window_seconds;
}

unfoldable pub set_defaults : Config → Config
set_defaults c = record {
  torbox = torbox_defaults c.torbox;
  server = record c.server { listen_addr = or_text (codes ":1412") c.server.listen_addr };
  cache = cache_defaults c.cache;
  throttle = record { requests_per_minute = or_int (pos 250) c.throttle.requests_per_minute };
  logging = record {
    format = or_text (codes "text") c.logging.format;
    level = or_text (codes "info") c.logging.level;
  };
  sync = sync_defaults c.sync;
  stats = stats_defaults c.stats;
  auth = record c.auth { username = or_text (codes "admin") c.auth.username };
  library = record c.library { hook_timeout_sec = or_int (pos 30) c.library.hook_timeout_sec };
}
