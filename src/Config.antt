-- ===== src/Config.antt =====
-- internal/config/config.go: the fields of a configuration. An int is a ℤ, and a pointer an Option.
pub mod Size
pub mod Defaults
pub mod Validate
pub mod Level
pub mod Checks
pub mod Entries
pub mod Sections
pub mod Accept
use warpbox.Base.{Bool, Option, List}
use warpbox.Base.Int.{ℤ}
use warpbox.Base.Text.{Text}

pub record TorBoxConfig : Type 0 where
  pub api_key : Text
  pub request_timeout_seconds : ℤ

pub record ServerConfig : Type 0 where
  pub listen_addr : Text
  pub enable_pprof : Bool

pub record CacheConfig : Type 0 where
  pub cdn_url_ttl_minutes : ℤ
  pub cdn_url_auto_repair : Option Bool
  pub cdn_url_repair_retries : Option ℤ
  pub cdn_url_retry_backoff : Option ℤ
  pub cdn_url_retry_count : Option ℤ
  pub negative_cache_ttl_seconds : Option ℤ
  pub circuit_breaker_failures : Option ℤ
  pub circuit_breaker_window_sec : Option ℤ
  pub circuit_breaker_stale_min : Option ℤ
  pub circuit_breaker_max_stale_minutes : Option ℤ
  pub negative_cache_max_entries : Option ℤ
  pub circuit_breaker_max_entries : Option ℤ
  pub cleanup_interval_seconds : Option ℤ
  pub max_cdn_connections : Option ℤ
  pub cdn_proxy_timeout_seconds : ℤ
  pub cdn_url_429_backoff_seconds : ℤ

pub record ThrottleConfig : Type 0 where
  pub requests_per_minute : ℤ

pub record LoggingConfig : Type 0 where
  pub format : Text
  pub level : Text

pub record SyncConfig : Type 0 where
  pub interval_minutes : ℤ
  pub list_page_size : ℤ
  pub bypass_cache : Bool
  pub retry_attempts : Option ℤ
  pub retry_backoff : Option ℤ
  pub sync_timeout_seconds : ℤ

pub record StatsConfig : Type 0 where
  pub interval_seconds : ℤ
  pub retention_hours : ℤ
  pub chart_minutes : ℤ
  pub api_health_window_seconds : ℤ

pub record VirtualPathConfig : Type 0 where
  pub name : Text
  pub directory_include : Text
  pub directory_exclude : Text
  pub file_regex : Text
  pub largest_file_only : Bool
  pub min_file_size : Text
  pub max_file_size : Text

pub record LibraryConfig : Type 0 where
  pub virtual_paths : List VirtualPathConfig
  pub on_items_added : Text
  pub on_items_removed : Text
  pub hook_timeout_sec : ℤ

pub record AuthConfig : Type 0 where
  pub enabled : Bool
  pub username : Text
  pub password : Text

pub record Config : Type 0 where
  pub torbox : TorBoxConfig
  pub server : ServerConfig
  pub cache : CacheConfig
  pub throttle : ThrottleConfig
  pub logging : LoggingConfig
  pub sync : SyncConfig
  pub stats : StatsConfig
  pub auth : AuthConfig
  pub library : LibraryConfig
