-- ===== src/Examples/Settings.antt =====
-- The theorems of the configuration: a file that leaves most fields out.
use warpbox.Base.{true, false, none, some, [], ◌∷◌}
use warpbox.Base.Int.{ℤ, pos, lt_int}
use warpbox.Base.Text.{codes, parse_int}
use warpbox.Base.Result.{ok, err}
use warpbox.Config.{Config, VirtualPathConfig}
use warpbox.Config.Size.{Floats}

-- Numbers without a fraction.
abbrev pub floats : Floats
floats = record {
  Float = ℤ;
  parse_float = λ s. elim (parse_int s) [ none ↦ err (codes "invalid syntax") | some n ↦ ok n ];
  is_negative = λ n. lt_int n (pos 0);
  scaled = λ n mult. n;
  exceeds_int64 = λ n. false;
  to_int64 = λ n. n;
}

abbrev pub movies : VirtualPathConfig
movies = record {
  name = codes "movies";
  directory_include = [];
  directory_exclude = [];
  file_regex = codes "mkv$";
  largest_file_only = true;
  min_file_size = codes "300";
  max_file_size = [];
}

abbrev pub file : Config
file = record {
  torbox = record { api_key = codes "key"; request_timeout_seconds = pos 0 };
  server = record { listen_addr = []; enable_pprof = false };
  cache = record {
    cdn_url_ttl_minutes = pos 0;
    cdn_url_auto_repair = none;
    cdn_url_repair_retries = some (pos 3);
    cdn_url_retry_backoff = none;
    cdn_url_retry_count = none;
    negative_cache_ttl_seconds = none;
    circuit_breaker_failures = none;
    circuit_breaker_window_sec = none;
    circuit_breaker_stale_min = none;
    circuit_breaker_max_stale_minutes = none;
    negative_cache_max_entries = none;
    circuit_breaker_max_entries = none;
    cleanup_interval_seconds = none;
    max_cdn_connections = none;
    cdn_proxy_timeout_seconds = pos 0;
    cdn_url_429_backoff_seconds = pos 0;
  };
  throttle = record { requests_per_minute = pos 60 };
  logging = record { format = []; level = codes "WARN" };
  sync = record {
    interval_minutes = pos 0;
    list_page_size = pos 0;
    bypass_cache = false;
    retry_attempts = none;
    retry_backoff = none;
    sync_timeout_seconds = pos 0;
  };
  stats = record {
    interval_seconds = pos 0;
    retention_hours = pos 0;
    chart_minutes = pos 0;
    api_health_window_seconds = pos 0;
  };
  auth = record { enabled = false; username = []; password = [] };
  library = record {
    virtual_paths = movies ∷ [];
    on_items_added = [];
    on_items_removed = [];
    hook_timeout_sec = pos 0;
  };
}
