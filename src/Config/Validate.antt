-- ===== src/Config/Validate.antt =====
-- internal/config/config.go: validate, validateLibrary, the parsers of the logging settings, and Load
-- behind the YAML parser.
use warpbox.Base.{
  ℕ, suc, Bool, not, ◌&&◌, ◌||◌, Option, none, some, List, [], ◌∷◌, ◌++◌, any, if◌then◌else◌,
}
use warpbox.Base.Int.{ℤ, pos, lt_int, eq_int}
use warpbox.Base.Text.{Text, codes, contains, text_eq, to_lower, format_int}
use warpbox.Base.Result.{Result, ok, err}
use warpbox.Config.{CacheConfig, SyncConfig, StatsConfig, VirtualPathConfig, LibraryConfig, Config}
use warpbox.Config.Size.{Floats, parse_file_size}
use warpbox.Config.Defaults.{set_defaults}

pub data Level : Type 0 where
  debug info warn error : Level

-- A sequence of guarded returns: `none` is nil.
unfoldable pub first_failure : List (Option Text) → Option Text
first_failure [] = none
first_failure (none ∷ checks) = first_failure checks
first_failure (some e ∷ checks) = some e

abbrev pub is_within : ℕ → ℕ → ℤ → Bool
is_within lo hi n = not (lt_int n (pos lo) || lt_int (pos hi) n)

-- `message` ends before the value.
unfoldable pub check_range : Text → ℕ → ℕ → ℤ → Option Text
check_range message lo hi n =
    if is_within lo hi n then none else some (message ++ (codes ", got " ++ format_int n))

unfoldable pub check_pointer : Text → ℕ → ℕ → Option ℤ → Option Text
check_pointer message lo hi none = none
check_pointer message lo hi (some n) = check_range message lo hi n

unfoldable pub check_timeout : ℤ → Option Text
check_timeout n =
    if eq_int n (pos 0)
    then none
    else check_range (codes "sync.sync_timeout_seconds must be 0 (no cap) or 30–3600") 30 3600 n

-- The error of a call, behind a prefix.
abbrev pub wrapped {ℓ} : {A : Type ℓ} → Text → Result A → Option Text
wrapped prefix (ok a) = none
wrapped prefix (err e) = some (prefix ++ (codes ": " ++ e))

abbrev pub prefixed : Text → Option Text → Option Text
prefixed prefix none = none
prefixed prefix (some e) = some (prefix ++ e)

abbrev pub required : Text → Text → Option Text
required message [] = some message
required message (c ∷ s) = none

abbrev pub checks_before_sync : CacheConfig → List (Option Text)
checks_before_sync c =
    check_range (codes "cache.cdn_proxy_timeout_seconds must be 5–600") 5 600
      c.cdn_proxy_timeout_seconds
    ∷ check_range (codes "cache.cdn_url_429_backoff_seconds must be 1–300") 1 300
        c.cdn_url_429_backoff_seconds
    ∷ []

abbrev pub sync_checks : SyncConfig → List (Option Text)
sync_checks c =
    check_timeout c.sync_timeout_seconds
    ∷ check_range (codes "sync.interval_minutes must be 1–1440") 1 1440 c.interval_minutes
    ∷ check_range (codes "sync.list_page_size must be 1–10000") 1 10000 c.list_page_size
    ∷ check_pointer (codes "sync.retry_attempts must be 0–10") 0 10 c.retry_attempts
    ∷ check_pointer (codes "sync.retry_backoff must be 1–60") 1 60 c.retry_backoff
    ∷ []

abbrev pub stats_checks : StatsConfig → List (Option Text)
stats_checks c =
    check_range (codes "stats.interval_seconds must be 10–3600") 10 3600 c.interval_seconds
    ∷ check_range (codes "stats.retention_hours must be 1–720") 1 720 c.retention_hours
    ∷ check_range (codes "stats.chart_minutes must be 1-1440") 1 1440 c.chart_minutes
    ∷ check_range (codes "stats.api_health_window_seconds must be 60-3600") 60 3600
        c.api_health_window_seconds
    ∷ []

abbrev pub cache_checks : CacheConfig → List (Option Text)
cache_checks c =
    check_pointer (codes "cache.cdn_url_repair_retries must be 0–10") 0 10 c.cdn_url_repair_retries
    ∷ check_pointer (codes "cache.cdn_url_retry_attempts must be 0–10") 0 10 c.cdn_url_retry_count
    ∷ check_pointer (codes "cache.cdn_url_retry_backoff must be 1–60") 1 60 c.cdn_url_retry_backoff
    ∷ check_pointer (codes "cache.negative_cache_ttl_seconds must be 1–300") 1 300
        c.negative_cache_ttl_seconds
    ∷ check_pointer (codes "cache.circuit_breaker_failures must be 1–100") 1 100
        c.circuit_breaker_failures
    ∷ check_pointer (codes "cache.circuit_breaker_window_seconds must be 1–3600") 1 3600
        c.circuit_breaker_window_sec
    ∷ check_pointer (codes "cache.circuit_breaker_stale_minutes must be 1–60") 1 60
        c.circuit_breaker_stale_min
    ∷ check_pointer (codes "cache.circuit_breaker_max_stale_minutes must be 5–1440") 5 1440
        c.circuit_breaker_max_stale_minutes
    ∷ check_pointer (codes "cache.negative_cache_max_entries must be 100–50000") 100 50000
        c.negative_cache_max_entries
    ∷ check_pointer (codes "cache.circuit_breaker_max_entries must be 50–20000") 50 20000
        c.circuit_breaker_max_entries
    ∷ check_pointer (codes "cache.cleanup_interval_seconds must be 10–3600") 10 3600
        c.cleanup_interval_seconds
    ∷ check_pointer (codes "cache.max_cdn_connections must be 1–64") 1 64 c.max_cdn_connections
    ∷ []

abbrev pub entry : ℕ → Text → Text
entry i what = codes "library.virtual_paths[" ++ (format_int (pos i) ++ (codes "]" ++ what))

abbrev order_error : ℕ → VirtualPathConfig → Text
order_error i vp = entry i (
    codes ": min_file_size ("
    ++ (vp.min_file_size
        ++ (codes ") must be <= max_file_size (" ++ (vp.max_file_size ++ codes ")"))))

abbrev pub ordered : ℤ → ℤ → Bool
ordered lo hi = not (lt_int (pos 0) lo && (lt_int (pos 0) hi && lt_int hi lo))

abbrev pub all_name : Text
all_name = codes "__all__"

-- The floats, the verb %q, and regexp.Compile, of which only the errors matter here.
module _ (F : Floats) (quote : Text → Text) (compile_error : Text → Option Text) where
  unfoldable pub parse_format : Text → Option Text
  parse_format s =
      let l = to_lower s in
      if text_eq l (codes "text") || text_eq l (codes "json")
      then none
      else some (codes "invalid format " ++ (quote s ++ codes ": must be text or json"))

  unfoldable pub parse_level : Text → Result Level
  parse_level s =
      let l = to_lower s in
      if text_eq l (codes "debug")
      then ok debug
      else if text_eq l (codes "info")
      then ok info
      else if text_eq l (codes "warn")
      then ok warn
      else if text_eq l (codes "error")
      then ok error
      else err
          (codes "invalid level " ++ (quote s ++ codes ": must be debug, info, warn, or error"))

  unfoldable pub check_regexp : ℕ → Text → Text → Option Text
  check_regexp i field [] = none
  check_regexp i field (c ∷ s) = elim (compile_error (c ∷ s)) [
    | none ↦ none
    | some e ↦ some (entry i (field ++ (codes ": " ++ e)))
  ]

  unfoldable pub check_sizes : ℕ → VirtualPathConfig → Option Text
  check_sizes i vp = elim (parse_file_size F quote vp.min_file_size) [
    | err e ↦ some (entry i (codes ".min_file_size: " ++ e))
    | ok lo ↦ elim (parse_file_size F quote vp.max_file_size) [
      | err e ↦ some (entry i (codes ".max_file_size: " ++ e))
      | ok hi ↦ if ordered lo hi then none else some (order_error i vp)
    ]
  ]

  abbrev pub entry_checks : ℕ → VirtualPathConfig → List (Option Text)
  entry_checks i vp =
      check_regexp i (codes ".directory_include") vp.directory_include
      ∷ check_regexp i (codes ".directory_exclude") vp.directory_exclude
      ∷ check_regexp i (codes ".file_regex") vp.file_regex
      ∷ check_sizes i vp
      ∷ []

  -- The loop at the index i, behind entries with the names `seen`.
  unfoldable pub validate_paths : List Text → ℕ → List VirtualPathConfig → Option Text
  validate_paths seen i [] = none
  validate_paths seen i (vp ∷ vps) =
      let skipped = validate_paths seen (suc i) vps in
      let rest = validate_paths (vp.name ∷ seen) (suc i) vps in
      if text_eq vp.name []
      then some (entry i (codes ".name is required"))
      else if contains vp.name (codes "/")
      then some (entry i (codes ".name must not contain '/', got " ++ quote vp.name))
      else if text_eq vp.name all_name
      then skipped
      else if any (text_eq vp.name) seen
      then some (entry i (codes ".name " ++ (quote vp.name ++ codes " is duplicated")))
      else first_failure (first_failure (entry_checks i vp) ∷ rest ∷ [])

  unfoldable pub validate_library : LibraryConfig → Option Text
  validate_library l = first_failure (
      validate_paths [] 0 l.virtual_paths
      ∷ check_range (codes "library.hook_timeout_seconds must be 1–3600") 1 3600 l.hook_timeout_sec
      ∷ [])

  abbrev pub head_checks : Config → List (Option Text)
  head_checks c =
      required (codes "torbox.api_key is required") c.torbox.api_key
      ∷ prefixed (codes "logging.format: ") (parse_format c.logging.format)
      ∷ wrapped (codes "logging.level") (parse_level c.logging.level)
      ∷ check_range (codes "cache.cdn_url_ttl_minutes must be 1–1440") 1 1440
          c.cache.cdn_url_ttl_minutes
      ∷ check_range (codes "torbox.request_timeout_seconds must be 5–600") 5 600
          c.torbox.request_timeout_seconds
      ∷ []

  abbrev pub tail_checks : Config → List (Option Text)
  tail_checks c =
      check_range (codes "throttle.requests_per_minute must be 10–1000") 10 1000
        c.throttle.requests_per_minute
      ∷ (if c.auth.enabled
          then required (codes "auth.password is required when auth.enabled is true")
              c.auth.password
          else none)
      ∷ validate_library c.library
      ∷ []

  unfoldable pub validate : Config → Option Text
  validate c = first_failure (
      head_checks c
      ++ (checks_before_sync c.cache
          ++ (sync_checks c.sync
              ++ (stats_checks c.stats ++ (cache_checks c.cache ++ tail_checks c)))))

  -- What Load does with the parsed file.
  unfoldable pub load : Config → Result Config
  load c = elim (validate (set_defaults c)) [ some e ↦ err e | none ↦ ok (set_defaults c) ]
