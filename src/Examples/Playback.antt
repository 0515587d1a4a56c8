-- ===== src/Examples/Playback.antt =====
-- The theorems of CDN URLs: an API that answers, one that fails, and one that rejects the key.
use warpbox.Base.{zero, suc, ◌*◌, ◌≡◌, refl, true, false, none, some, [], ◌∷◌, ◌++◌, arith, keep}
use warpbox.Base.Int.{pos}
use warpbox.Base.Text.{
  Text, codes, contains, text_eq, index_from, digits_onto, format_int, has_prefix, index_byte,
  is_space, last_index_byte, parse_digits, parse_int, parse_magnitude, trim_left, trim_space,
}
use warpbox.Base.Assoc.{lookup, insert, remove}
use warpbox.Base.Result.{err}
use warpbox.Torbox.Client.{envelope, response, do_request, decode, is_retryable}
use warpbox.Metadata.Record.{int_keys}
use warpbox.Server.State.{Server, World, database_error, TorrentFailureTracker, second}
use warpbox.Server.Health.{global_degraded, count_outcomes, health_window, record_outcome}
use warpbox.Server.Breaker.{
  is_torrent_stale, escalated_minutes, classify_torbox_error, clamped, clear_torrent_failure,
  record_torrent_failure, trip, updated_tracker,
}
use warpbox.Server.Breaker.Laws.{at_time, is_torrent_stale_probe}
use warpbox.Server.Breaker.Threshold.{failures_at, threshold_opens_breaker}
use warpbox.Server.Fetch.{
  get_cdn_url_with_retry, fetch_cdn_url, call_of, fetch_unless_stale, attempt_fetch, retry_loop,
  cdn_cache_key, backoff, blame, decode_url, give_up, request_url,
}
use warpbox.Server.Fetch.Calls.{Untouched, Ended, Counted}
use warpbox.Server.Fetch.Laws.{
  get_cdn_url_with_retry-Ended, auth_failure_quarantines_nothing, fetch_cdn_url_recovers,
  failed_fetch_cached,
}
use warpbox.Examples.Data.{row}
use warpbox.Examples.Setup.{
  settings, good_world, gone_world, key_world, server, stale_tracker, tripped, call,
}

is_torrent_stale_probe_example :
    ((is_torrent_stale (pos 7) tripped).0 ≡ false)
    × (is_torrent_stale (pos 7) (at_time (1010 * second) (is_torrent_stale (pos 7) tripped).1)
        ≡ (true, at_time (1010 * second) (is_torrent_stale (pos 7) tripped).1))
unfolding lookup
is_torrent_stale_probe_example =
    is_torrent_stale_probe (pos 7) tripped stale_tracker (1010 * second) refl (omega arith)
      (omega arith) (omega arith)

threshold_opens_breaker_example :
    let before =
      at_time (20 * second) (
        failures_at settings
          (pos 7)
          database_error
          (codes "e")
          (second ∷ 2 * second ∷ [])
          server) in
    let after = at_time (300 * second) (
      failures_at settings
        (pos 7)
        database_error
        (codes "e")
        ((second ∷ 2 * second ∷ []) ++ 20 * second ∷ [])
        server) in
    (is_torrent_stale (pos 7) before ≡ (false, before))
    × (is_torrent_stale (pos 7) after ≡ (true, after))
unfolding lookup
threshold_opens_breaker_example =
    threshold_opens_breaker settings (pos 7) database_error (codes "e") second
      (second ∷ 2 * second ∷ []) (20 * second) (300 * second) server refl
      ((omega arith, omega arith), ((omega arith, omega arith), tt)) (omega arith, omega arith) refl
      (omega arith) (omega arith) (omega arith)

get_cdn_url_with_retry-Ended_example :
    Ended gone_world settings call 2 server (get_cdn_url_with_retry gone_world settings call server)
get_cdn_url_with_retry-Ended_example = get_cdn_url_with_retry-Ended gone_world settings call server

abbrev key_error : Text
key_error = codes "torbox: unexpected status 403 (BAD_TOKEN)"

auth_failure_quarantines_nothing_example :
    Untouched server (get_cdn_url_with_retry key_world settings call server).1
unfolding get_cdn_url_with_retry retry_loop do_request is_retryable contains classify_torbox_error
    index_from parse_int index_byte trim_space last_index_byte text_eq
auth_failure_quarantines_nothing_example =
    auth_failure_quarantines_nothing key_world settings call server key_error refl refl

fetch_cdn_url_recovers_example :
    (lookup (pos 7) (fetch_cdn_url good_world settings call tripped).1.torrent_failures ≡ none)
    × Counted good_world settings call 2 tripped (fetch_cdn_url good_world settings call tripped).1
unfolding fetch_cdn_url lookup fetch_unless_stale is_torrent_stale attempt_fetch
    get_cdn_url_with_retry retry_loop do_request decode_url decode
fetch_cdn_url_recovers_example =
    fetch_cdn_url_recovers good_world settings call tripped (codes "https://cdn/x") refl

abbrev gone_error : Text
gone_error = codes "torbox: unexpected status 404 (NOT_FOUND)"

failed_fetch_cached_example :
    let later = at_time (1200 * second) (fetch_cdn_url gone_world settings call server).1 in
    fetch_cdn_url gone_world settings call later ≡ (err gone_error, later)
unfolding fetch_cdn_url lookup fetch_unless_stale is_torrent_stale attempt_fetch
    get_cdn_url_with_retry retry_loop do_request is_retryable contains insert text_eq cdn_cache_key
    remove classify_torbox_error index_from keep digits_onto format_int has_prefix index_byte
    is_space last_index_byte parse_digits parse_int parse_magnitude trim_left trim_space clamped
    clear_torrent_failure escalated_minutes record_torrent_failure trip updated_tracker backoff
    blame decode_url give_up request_url count_outcomes global_degraded health_window record_outcome
    decode
failed_fetch_cached_example =
    failed_fetch_cached gone_world settings call server gone_error (1200 * second) refl
      (omega arith) (omega arith)

-- The first request fails, the second one is answered.
abbrev second_world : World
second_world = record good_world {
  requestdl = λ n call. elim n [
    | zero ↦ response 404 (envelope (some (codes "NOT_FOUND")) [])
    | suc m ↦ response 200 (envelope none (codes "https://cdn/x"))
  ];
}

abbrev after_first : Server
after_first = (fetch_cdn_url second_world settings (call_of (row 3 8 4)) server).1

-- A probe of an item whose failures are long ago.
abbrev probed_tracker : TorrentFailureTracker
probed_tracker = record stale_tracker { stale_until = 1015 * second; failures = second ∷ [] }

abbrev probed : Server
probed = record server { torrent_failures = (pos 7, probed_tracker) ∷ [] }
