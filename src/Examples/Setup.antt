-- ===== src/Examples/Setup.antt =====
-- Settings, worlds and a server for the theorems of playback.
use warpbox.Base.{◌*◌, true, none, some, [], ◌∷◌}
use warpbox.Base.Int.{pos}
use warpbox.Base.Text.{Text, codes}
use warpbox.Torbox.Client.{Reply, envelope, response}
use warpbox.Metadata.Record.{torrent, int_keys}
use warpbox.Server.State.{
  Server, Config, World, ApiCall, TorrentFailureTracker, empty_tracker, second, network_error,
}
use warpbox.Examples.Data.{shelf}

abbrev pub settings : Config
settings = record {
  cdn_ttl_minutes = 60;
  cdn_url_auto_repair = true;
  cdn_url_repair_retries = 2;
  cdn_url_retry_backoff = 1;
  cdn_url_retry_count = 1;
  cdn_url_429_backoff_seconds = 5;
  negative_cache_ttl_seconds = 300;
  circuit_breaker_failures = 3;
  circuit_breaker_window_sec = 600;
  circuit_breaker_stale_min = 5;
  circuit_breaker_max_stale_min = 60;
  max_cdn_connections = 4;
  negative_cache_max_entries = 100;
  circuit_breaker_max_entries = 100;
  api_health_window_seconds = 0;
}

-- A world whose API answers every request in the same way, in a second.
abbrev pub world : Reply Text → World
world reply = record {
  requestdl_path = λ source. codes "/requestdl";
  requestdl = λ n call. reply;
  cdn_get = λ n url from to. network_error;
  elapsed = λ n. second;
  query_error = λ n. none;
  write_error = λ n attempt. none;
  valid_url = λ url. true;
  quote = λ s. s;
  format_time = λ t. codes "2025-01-01T00:00:00Z";
  parse_time = λ s. none;
}

abbrev pub good_world : World
good_world = world (response 200 (envelope none (codes "https://cdn/x")))

abbrev pub gone_world : World
gone_world = world (response 404 (envelope (some (codes "NOT_FOUND")) []))

abbrev pub key_world : World
key_world = world (response 403 (envelope (some (codes "BAD_TOKEN")) []))

abbrev pub server : Server
server = record {
  clock = 1000 * second;
  events = 0;
  calls = [];
  negative_cache = [];
  torrent_failures = [];
  outcomes = [];
  store = shelf;
  cdn_in_use = 0;
}

abbrev pub stale_tracker : TorrentFailureTracker
stale_tracker = record empty_tracker { stale_until = 900 * second }

abbrev pub tripped : Server
tripped = record server { torrent_failures = (pos 7, stale_tracker) ∷ [] }

abbrev pub call : ApiCall
call = record { source = torrent; item_id = pos 7; file_id = pos 1 }
