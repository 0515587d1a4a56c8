-- ===== src/Examples/Proxy.antt =====
-- The theorems of the playback proxy: a CDN that streams, one that is busy, and one that knows a
-- shorter file.
use warpbox.Base.{
  ltb, not, ◌&&◌, ◌==◌, any, zero, suc, ◌*◌, ◌≡◌, refl, true, false, some, [], arith,
}
use warpbox.Base.Int.{pos}
use warpbox.Base.Text.{codes, index_from, parse_int, trim_space}
use warpbox.Base.Result.{err}
use warpbox.Server.State.{Server, World, second, cdn_response}
use warpbox.Server.Breaker.Laws.{at_time}
use warpbox.Server.Fetch.{fetch_cdn_url, call_of}
use warpbox.Server.Range.{HttpRange, parse_cdn_true_size}
use warpbox.Server.Answer.{Head, error_reply, Request, mismatch_error}
use warpbox.Server.Answer.Sound.{Sound}
use mathlib.Core.List.Permᴰ
use warpbox.Server.Sweep.{sweep_negative_cache, sweep_circuit_breaker}
use warpbox.Server.Sweep.Bounds.{IsSwept, sweeps-IsSwept}
use warpbox.Metadata.Record.{text_keys, int_keys}
use warpbox.Server.Stream.{settle, stream_file_content}
use warpbox.Server.Stream.Ends.{stream_file_content-StreamEnds, StreamEnds}
use warpbox.Server.Stream.Sizes.{settle_416, corrected}
use warpbox.Metadata.Store.{find_id}
use warpbox.Examples.Data.{row}
use warpbox.Examples.Catalogue.{shelf-IsValid}
use warpbox.Examples.Setup.{settings, tripped, good_world, server}

-- The API answers, and the CDN is busy for good.
abbrev pub busy_world : World
busy_world = record good_world { cdn_get = λ n url from to. cdn_response 503 [] [] [] }

-- The client leaves during the third wait.
abbrev pub request : Request
request = record {
  path = codes "Show/a.mkv";
  range = codes "bytes=0-9";
  gone = λ n. elim n [ zero ↦ false | suc m ↦ elim m [ zero ↦ false | suc l ↦ true ] ];
}

abbrev asked : HttpRange
asked = record { start = pos 0; end = pos 9; length = pos 10 }

abbrev head : Head
head = record {
  content_type = codes "video/x-matroska";
  content_length = pos 10;
  content_range = some asked;
  file_size = pos 100;
}

pub server-Sound : Sound 0 server
server-Sound = record { slots = refl; valid = shelf-IsValid }

stream_file_content-StreamEnds_example :
    StreamEnds 0 (stream_file_content busy_world settings (row 1 7 4) request 9 server)
stream_file_content-StreamEnds_example =
    stream_file_content-StreamEnds busy_world settings (row 1 7 4) request 9 0 server server-Sound

settle_416_example :
    (s' : Server) × (settle good_world settings
        (row 1 7 4)
        request
        9
        false
        head
        (cdn_response 416 [] (codes "bytes */90") [])
        server
      ≡ some (error_reply 416 (codes "requested range not satisfiable"), s'))
    × (find_id 1 s'.store.files ≡ some (corrected good_world (pos 90) (1000 * second) (row 1 7 4)))
    × (fetch_cdn_url good_world settings (call_of (row 1 7 4)) (at_time (1200 * second) s')
        ≡ (err (mismatch_error (pos 100) (pos 90)), at_time (1200 * second) s'))
unfolding parse_cdn_true_size index_from parse_int trim_space find_id
settle_416_example =
    settle_416 good_world settings (row 1 7 4) (λ n attempt. refl) refl request 9 false head []
      (codes "bytes */90") [] (pos 90) server (row 1 7 4) (1200 * second) refl refl refl
      (omega arith)

sweeps-IsSwept_example :
    IsSwept
      (λ v. ltb v.expires_at tripped.clock)
      100
      tripped.negative_cache
      (sweep_negative_cache (λ l. l) settings tripped).negative_cache
    × IsSwept
        (λ v. not (v.stale_until == 0) && ltb v.stale_until tripped.clock)
        100
        tripped.torrent_failures
        (sweep_circuit_breaker (λ l. l) settings tripped).torrent_failures
unfolding any
sweeps-IsSwept_example =
    sweeps-IsSwept (λ l. l) (λ l. l) settings tripped (λ l. Permᴰ.refl l) (λ l. Permᴰ.refl l) tt
      (refl, tt)
