-- ===== src/Server/Fetch.antt =====
-- internal/server/get.go: a CDN URL by way of the negative cache, the breaker, the retries and the
-- alternatives. The throttle queue runs one request at a time: a call is one event of the world.
pub mod Calls
pub mod Kept
pub mod Laws
pub mod Fallback
use warpbox.Base.{
  ℕ, zero, suc, ◌+◌, ◌*◌, ◌^◌, Bool, true, false, Option, none, some, List, [], ◌∷◌, ◌++◌, ltb,
  if◌then◌else◌,
}
use warpbox.Base.Int.{ℤ, pos, wrap64, pos_part}
use warpbox.Base.Text.{Text, codes, contains, format_int, text_eq}
use warpbox.Base.Assoc.{Assoc, lookup, insert, remove}
use warpbox.Base.Result.{Result, ok, err, is_ok}
use warpbox.Metadata.Record.{FileSource, torrent, usenet, FileRecord, text_keys}
use warpbox.Metadata.Store.{get_file_alternatives}
use warpbox.Torbox.Client.{Body, Reply, do_request, decode, is_retryable}
use warpbox.Server.State.{
  Server, Config, World, ApiCall, NegativeCacheEntry, FailureKind, auth, transient, database_error,
  second,
}
use warpbox.Server.Health.{record_outcome}
use warpbox.Server.Breaker.{
  classify_torbox_error, is_torrent_stale, record_torrent_failure, clear_torrent_failure,
}

unfoldable pub cdn_cache_key : FileSource → ℤ → ℤ → Text
cdn_cache_key source item file =
    elim source [ torrent ↦ codes "torrent" | usenet ↦ codes "usenet" ]
    ++ (codes ":" ++ (format_int item ++ (codes ":" ++ format_int file)))

-- The decoding in GetDownloadURL and GetUsenetDownloadURL.
unfoldable pub decode_url : FileSource → Body Text → Result Text
decode_url torrent body =
    decode (codes "torbox: decoding response: ") (codes "torbox API error: ") body
decode_url usenet body =
    decode (codes "torbox: decoding usenet response: ") (codes "torbox usenet API error: ") body

-- OnOutcome, which the program wires to RecordTorBoxOutcome.
abbrev pub notify : Config → Option (ℕ × Bool) → Server → Server
notify cfg none s = s
notify cfg (some (status, fine)) s = record_outcome cfg fine s

-- The call is over: the time it took has passed, and the log has it.
abbrev pub called : World → ApiCall → Server → Server
called w call s = record s {
  clock = s.clock + w.elapsed s.events;
  events = s.events + 1;
  calls = call ∷ s.calls;
}

abbrev url_of : FileSource → Result (Body Text) → Result Text
url_of source (err e) = err e
url_of source (ok body) = decode_url source body

-- One round of the loop of getCDNURLWithRetry, up to its own recordOutcome.
unfoldable pub request_url : World → Config → ApiCall → Server → Result Text × Server
request_url w cfg call s =
    let attempt =
      do_request (codes "GET " ++ w.requestdl_path call.source) (w.requestdl s.events call) in
    let url = url_of call.source attempt.result in
    (url, record_outcome cfg (is_ok url) (notify cfg attempt.notified (called w call s)))

-- The request has failed for good: an authentication failure is no fault of the item.
unfoldable pub blame : Config → ℤ → Text → FailureKind → Server → Server
blame cfg item e auth s = s
blame cfg item e transient s = record_torrent_failure cfg item transient e s
blame cfg item e database_error s = record_torrent_failure cfg item database_error e s

unfoldable pub give_up : Config → ℤ → Text → Server → Server
unfolding blame
give_up cfg item e s = blame cfg item e (classify_torbox_error e).0 s

-- Durations are int64 values, and time.Sleep returns at once on a negative one.
unfoldable pub backoff : Config → ℕ → Text → ℕ
backoff cfg attempt e =
    if contains e (codes "unexpected status 429")
    then cfg.cdn_url_429_backoff_seconds * second
    else pos_part (wrap64 (pos (cfg.cdn_url_retry_backoff * second * 2 ^ attempt)))

abbrev pub sleep : ℕ → Server → Server
sleep wait s = record s { clock = s.clock + wait }

-- The loop, with `left` retries to go after this attempt.
unfoldable pub retry_loop : World → Config → ApiCall → ℕ → ℕ → Server → Result Text × Server
unfolding request_url give_up backoff
retry_loop w cfg call zero attempt s =
    let (url, s') = request_url w cfg call s in
    elim url [ ok u ↦ (ok u, s') | err e ↦ (err e, give_up cfg call.item_id e s') ]
retry_loop w cfg call (suc left) attempt s =
    let (url, s') = request_url w cfg call s in
    elim url [
      | ok u ↦ (ok u, s')
      | err e ↦ elim (is_retryable e) [
        | false ↦ (err e, give_up cfg call.item_id e s')
        | true ↦ retry_loop w cfg call left (suc attempt) (sleep (backoff cfg attempt e) s')
      ]
    ]

unfoldable pub get_cdn_url_with_retry : World → Config → ApiCall → Server → Result Text × Server
get_cdn_url_with_retry w cfg call s = retry_loop w cfg call cfg.cdn_url_retry_count 0 s

-- negativeCache[key] = the error, for the configured time
abbrev pub remember_failure : Config → Text → Text → Server → Server
remember_failure cfg key e s = record s {
  negative_cache =
      insert key
        (record { error = e; expires_at = s.clock + cfg.negative_cache_ttl_seconds * second })
        s.negative_cache;
}

-- Step 3 of fetchCDNURL.
unfoldable pub attempt_fetch : World → Config → Text → ApiCall → Server → Result Text × Server
attempt_fetch w cfg key call s =
    let (url, s') = get_cdn_url_with_retry w cfg call s in
    elim url [
      | err e ↦ (err e, remember_failure cfg key e s')
      | ok u ↦ (ok u, clear_torrent_failure call.item_id s')
    ]

abbrev pub stale_error : ℤ → Text
stale_error item = codes "item " ++ (format_int item ++ codes " is marked stale by circuit breaker")

-- Steps 2 and 3.
unfoldable pub fetch_unless_stale : World → Config → Text → ApiCall → Server → Result Text × Server
fetch_unless_stale w cfg key call s =
    let (stale, s') = is_torrent_stale call.item_id s in
    elim stale [
      | true ↦ (err (stale_error call.item_id), s')
      | false ↦ attempt_fetch w cfg key call s'
    ]

unfoldable pub fetch_cdn_url : World → Config → ApiCall → Server → Result Text × Server
fetch_cdn_url w cfg call s =
    let key = cdn_cache_key call.source call.item_id call.file_id in
    elim (lookup key s.negative_cache) [
      | none ↦ fetch_unless_stale w cfg key call s
      | some entry ↦ elim (ltb s.clock entry.expires_at) [
        | true ↦ (err entry.error, s)
        | false ↦
            fetch_unless_stale w cfg key call
              (record s { negative_cache = remove key s.negative_cache })
      ]
    ]

abbrev pub call_of : FileRecord → ApiCall
call_of file = record { source = file.source; item_id = file.item_id; file_id = file.file_id }

-- The loop of tryCDNFallback, with the last error.
unfoldable pub fallback_loop :
    World → Config → Text → List FileRecord → Server → Result Text × Server
fallback_loop w cfg last [] s = (err (codes "all alternatives failed: " ++ last), s)
fallback_loop w cfg last (alternative ∷ rest) s =
    let (url, s') = fetch_cdn_url w cfg (call_of alternative) s in
    elim url [ ok u ↦ (ok u, s') | err e ↦ fallback_loop w cfg e rest s' ]

unfoldable pub try_cdn_fallback : World → Config → Text → Server → Result Text × Server
try_cdn_fallback w cfg path s =
    let s' = record s { events = s.events + 1 } in
    elim (w.query_error s.events) [
      | some e ↦ (err (codes "querying alternatives: " ++ e), s')
      | none ↦ elim (get_file_alternatives path s.store) [
        | [] ↦ (err (codes "no alternatives for path " ++ w.quote path), s')
        | file ∷ files ↦ fallback_loop w cfg [] (file ∷ files) s'
      ]
    ]
