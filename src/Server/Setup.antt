-- ===== src/Server/Setup.antt =====
-- How cmd/warpbox/main.go and New of internal/server/server.go set a server up: the settings of the
-- configuration that playback reads, and the filters of the virtual paths.
pub mod Settings
pub mod Mounts
use warpbox.Base.{◌≡◌, ap, Option, none, some, List, [], ◌∷◌, ◌++◌}
use warpbox.Base.Int.{ℤ, pos_part}
use warpbox.Base.Text.{Text, codes, trim_prefix}
use warpbox.Base.Result.{Result, ok, err}
use warpbox.Base.Assoc.{Assoc, insert}
use warpbox.Metadata.Record.{text_keys}
use warpbox.Library.Filter.{Regexp, Filter, new_filter}
use warpbox.Config.{Config, VirtualPathConfig}
use warpbox.Config.Size.{Floats, parse_file_size}
use warpbox.Server.State

infixl 5 ◌>>=◌
unfoldable pub ◌>>=◌ : {A B : Type 0} → Option A → (A → Option B) → Option B
none >>= f = none
some a >>= f = f a

pub bind : {A B : Type 0} (o : Option A) (f : A → Option B) (a : A) → o ≡ some a → (o >>= f) ≡ f a
unfolding ◌>>=◌
bind none f a e = absurd cc
bind (some b) f a e = (let same : b ≡ a = cc in ap f same)

-- The settings; `none` is the panic at a nil pointer. An int is taken as it is where it is not negative.
unfoldable pub server_config : Config → Option State.Config
server_config c = do
  auto_repair ← c.cache.cdn_url_auto_repair
  repair_retries ← c.cache.cdn_url_repair_retries
  retry_backoff ← c.cache.cdn_url_retry_backoff
  retry_count ← c.cache.cdn_url_retry_count
  negative_ttl ← c.cache.negative_cache_ttl_seconds
  failures ← c.cache.circuit_breaker_failures
  window_sec ← c.cache.circuit_breaker_window_sec
  stale_min ← c.cache.circuit_breaker_stale_min
  max_stale ← c.cache.circuit_breaker_max_stale_minutes
  negative_max ← c.cache.negative_cache_max_entries
  breaker_max ← c.cache.circuit_breaker_max_entries
  connections ← c.cache.max_cdn_connections
  some (record {
    cdn_ttl_minutes = pos_part c.cache.cdn_url_ttl_minutes;
    cdn_url_auto_repair = auto_repair;
    cdn_url_repair_retries = pos_part repair_retries;
    cdn_url_retry_backoff = pos_part retry_backoff;
    cdn_url_retry_count = pos_part retry_count;
    cdn_url_429_backoff_seconds = pos_part c.cache.cdn_url_429_backoff_seconds;
    max_cdn_connections = pos_part connections;
    negative_cache_ttl_seconds = pos_part negative_ttl;
    circuit_breaker_failures = pos_part failures;
    circuit_breaker_window_sec = pos_part window_sec;
    circuit_breaker_stale_min = pos_part stale_min;
    circuit_breaker_max_stale_min = pos_part max_stale;
    negative_cache_max_entries = pos_part negative_max;
    circuit_breaker_max_entries = pos_part breaker_max;
    api_health_window_seconds = pos_part c.stats.api_health_window_seconds;
  })

abbrev size_of : Result ℤ → Option ℤ
size_of (ok n) = some n
size_of (err e) = none

-- The texts of errors are only logged.
module _ (F : Floats) (quote : Text → Text) (compile : Text → Option Regexp) where
  unfoldable pub build_filter : VirtualPathConfig → Option Filter
  build_filter vp = do
    f ←
        new_filter compile (codes "/" ++ vp.name) vp.directory_include vp.directory_exclude
          vp.file_regex vp.largest_file_only
    min_size ← size_of (parse_file_size F quote vp.min_file_size)
    max_size ← size_of (parse_file_size F quote vp.max_file_size)
    some (record f { min_size = min_size; max_size = max_size })

  unfoldable pub build_filters : List VirtualPathConfig → Option (List Filter)
  build_filters [] = some []
  build_filters (vp ∷ vps) = do f ← build_filter vp; fs ← build_filters vps; some (f ∷ fs)

-- New goes on without filters where they cannot be built.
abbrev pub filters_or_none : Option (List Filter) → List Filter
filters_or_none none = []
filters_or_none (some fs) = fs

-- The loop of makeVirtualPathMap, from the map m.
unfoldable pub map_filters : Assoc Text Filter → List Filter → Assoc Text Filter
map_filters m [] = m
map_filters m (f ∷ fs) = map_filters (insert (trim_prefix f.mount (codes "/")) f m) fs

abbrev pub make_virtual_path_map : List Filter → Assoc Text Filter
make_virtual_path_map fs = map_filters [] fs
