-- ===== src/Config/Sections.antt =====
-- What the checks of the sections of a configuration accept.
use warpbox.Base.{◌↔◌, Option, List, ◌++◌, arith}
use warpbox.Base.Text.{Text}
use warpbox.Config.{CacheConfig, SyncConfig, StatsConfig}
use warpbox.Config.Defaults.{cache_defaults, sync_defaults, stats_defaults}
use warpbox.Config.Validate.{checks_before_sync, sync_checks, stats_checks, cache_checks}
use warpbox.Config.Checks.{
  IsGiven, IsPointed, AllNone, AllNone-append, or_int_iff, or_nil_iff, check_timeout_iff,
}

infixr 4 ◌⊗◌
-- Equivalences of the parts of two products.
abbrev pub ◌⊗◌ : {A A' B B' : Type 0} → A ↔ A' → B ↔ B' → (A × B) ↔ (A' × B')
f ⊗ g = (λ p. (f.0 p.0, g.0 p.1), λ p. (f.1 p.0, g.1 p.1))

-- Two parts of the checks.
pub join :
    {P Q : Type 0} (xs ys : List (Option Text))
    → AllNone xs ↔ P
    → AllNone ys ↔ Q
    → AllNone (xs ++ ys) ↔ (P × Q)
join xs ys f g =
    let both = f ⊗ g in
    (λ h. both.0 ((AllNone-append xs ys).0 h), λ h. (AllNone-append xs ys).1 (both.1 h))

pub end : Unit {0} ↔ Unit {0}
end = (λ t. t, λ t. t)

infixr 3 ◌⊠◌
abbrev pub ◌⊠◌ : Type 0 → Type 0 → Type 0
A ⊠ B = A × B

abbrev pub IsCdnTimed : CacheConfig → Type 0
IsCdnTimed c =
    IsGiven 5 600 c.cdn_proxy_timeout_seconds ⊠ IsGiven 1 300 c.cdn_url_429_backoff_seconds ⊠ Unit

abbrev pub IsSyncing : SyncConfig → Type 0
IsSyncing c =
    IsGiven 30 3600 c.sync_timeout_seconds
    ⊠ IsGiven 1 1440 c.interval_minutes
    ⊠ IsGiven 1 10000 c.list_page_size
    ⊠ IsPointed 0 10 c.retry_attempts
    ⊠ IsPointed 1 60 c.retry_backoff
    ⊠ Unit

abbrev pub IsCounted : StatsConfig → Type 0
IsCounted c =
    IsGiven 10 3600 c.interval_seconds
    ⊠ IsGiven 1 720 c.retention_hours
    ⊠ IsGiven 1 1440 c.chart_minutes
    ⊠ IsGiven 60 3600 c.api_health_window_seconds
    ⊠ Unit

abbrev pub IsCaching : CacheConfig → Type 0
IsCaching c =
    IsPointed 0 10 c.cdn_url_repair_retries
    ⊠ IsPointed 0 10 c.cdn_url_retry_count
    ⊠ IsPointed 1 60 c.cdn_url_retry_backoff
    ⊠ IsPointed 1 300 c.negative_cache_ttl_seconds
    ⊠ IsPointed 1 100 c.circuit_breaker_failures
    ⊠ IsPointed 1 3600 c.circuit_breaker_window_sec
    ⊠ IsPointed 1 60 c.circuit_breaker_stale_min
    ⊠ IsPointed 5 1440 c.circuit_breaker_max_stale_minutes
    ⊠ IsPointed 100 50000 c.negative_cache_max_entries
    ⊠ IsPointed 50 20000 c.circuit_breaker_max_entries
    ⊠ IsPointed 10 3600 c.cleanup_interval_seconds
    ⊠ IsPointed 1 64 c.max_cdn_connections
    ⊠ Unit

pub IsCdnTimed-iff :
    (c : CacheConfig) → AllNone (checks_before_sync (cache_defaults c)) ↔ IsCdnTimed c
IsCdnTimed-iff c =
    or_int_iff _ 5 600 30 c.cdn_proxy_timeout_seconds (omega arith) (omega arith)
    ⊗ or_int_iff _ 1 300 30 c.cdn_url_429_backoff_seconds (omega arith) (omega arith)
    ⊗ end

pub IsSyncing-iff : (c : SyncConfig) → AllNone (sync_checks (sync_defaults c)) ↔ IsSyncing c
IsSyncing-iff c =
    check_timeout_iff c.sync_timeout_seconds
    ⊗ or_int_iff _ 1 1440 5 c.interval_minutes (omega arith) (omega arith)
    ⊗ or_int_iff _ 1 10000 5000 c.list_page_size (omega arith) (omega arith)
    ⊗ or_nil_iff _ 0 10 3 c.retry_attempts (omega arith) (omega arith)
    ⊗ or_nil_iff _ 1 60 1 c.retry_backoff (omega arith) (omega arith)
    ⊗ end

pub IsCounted-iff : (c : StatsConfig) → AllNone (stats_checks (stats_defaults c)) ↔ IsCounted c
IsCounted-iff c =
    or_int_iff _ 10 3600 60 c.interval_seconds (omega arith) (omega arith)
    ⊗ or_int_iff _ 1 720 24 c.retention_hours (omega arith) (omega arith)
    ⊗ or_int_iff _ 1 1440 60 c.chart_minutes (omega arith) (omega arith)
    ⊗ or_int_iff _ 60 3600 300 c.api_health_window_seconds (omega arith) (omega arith)
    ⊗ end

pub IsCaching-iff : (c : CacheConfig) → AllNone (cache_checks (cache_defaults c)) ↔ IsCaching c
IsCaching-iff c =
    or_nil_iff _ 0 10 2 c.cdn_url_repair_retries (omega arith) (omega arith)
    ⊗ or_nil_iff _ 0 10 1 c.cdn_url_retry_count (omega arith) (omega arith)
    ⊗ or_nil_iff _ 1 60 1 c.cdn_url_retry_backoff (omega arith) (omega arith)
    ⊗ or_nil_iff _ 1 300 30 c.negative_cache_ttl_seconds (omega arith) (omega arith)
    ⊗ or_nil_iff _ 1 100 5 c.circuit_breaker_failures (omega arith) (omega arith)
    ⊗ or_nil_iff _ 1 3600 600 c.circuit_breaker_window_sec (omega arith) (omega arith)
    ⊗ or_nil_iff _ 1 60 5 c.circuit_breaker_stale_min (omega arith) (omega arith)
    ⊗ or_nil_iff _ 5 1440 60 c.circuit_breaker_max_stale_minutes (omega arith) (omega arith)
    ⊗ or_nil_iff _ 100 50000 5000 c.negative_cache_max_entries (omega arith) (omega arith)
    ⊗ or_nil_iff _ 50 20000 2000 c.circuit_breaker_max_entries (omega arith) (omega arith)
    ⊗ or_nil_iff _ 10 3600 60 c.cleanup_interval_seconds (omega arith) (omega arith)
    ⊗ or_nil_iff _ 1 64 4 c.max_cdn_connections (omega arith) (omega arith)
    ⊗ end
