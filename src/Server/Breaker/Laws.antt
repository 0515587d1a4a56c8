-- ===== src/Server/Breaker/Laws.antt =====
-- The breaker's states: closed, open, half open.
use warpbox.Base.{ℕ, ◌+◌, ◌≤◌, ◌<◌, ◌≡◌, ◌≢◌, refl, true, false, some, arith}
use warpbox.Base.Int.{ℤ, eq_int_refl}
use warpbox.Base.Assoc.{Assoc, lookup, insert, lookup-insert}
use warpbox.Metadata.Record.{int_keys}
use warpbox.Server.State.{Server, TorrentFailureTracker}
use warpbox.Server.Breaker.{is_torrent_stale, put_tracker, breaker_probe_interval}

-- The server at a later time.
abbrev pub at_time : ℕ → Server → Server
at_time now s = record s { clock = now }

stale_probe-step :
    (item : ℤ) (s : Server) (t : TorrentFailureTracker)
    → lookup item s.torrent_failures ≡ some t
    → t.stale_until ≢ 0
    → t.stale_until ≤ s.clock
    → is_torrent_stale item s
      ≡ (false, put_tracker item (record t { stale_until = s.clock + breaker_probe_interval }) s)
unfolding is_torrent_stale
stale_probe-step item s t h nz over = rw (h, is_torrent_stale) (ground arith)

pub is_torrent_stale_open :
    (item : ℤ) (s : Server) (t : TorrentFailureTracker)
    → lookup item s.torrent_failures ≡ some t
    → t.stale_until ≢ 0
    → s.clock < t.stale_until
    → is_torrent_stale item s ≡ (true, s)
unfolding is_torrent_stale
is_torrent_stale_open item s t h nz soon = rw (h, is_torrent_stale) (ground arith)

pub lookup-insert_same :
    {V : Type 0} (k : ℤ) (v : V) (m : Assoc ℤ V) → lookup k (insert k v m) ≡ some v
lookup-insert_same k v m = rw (lookup-insert k k v m, eq_int_refl k) refl

-- Half open: once the stale window is over, one caller gets through, and every other one until the
-- probe interval has passed is turned away and changes nothing.
pub is_torrent_stale_probe :
    (item : ℤ) (s : Server) (t : TorrentFailureTracker) (now : ℕ)
    → lookup item s.torrent_failures ≡ some t
    → t.stale_until ≢ 0
    → t.stale_until ≤ s.clock
    → now < s.clock + breaker_probe_interval
    → ((is_torrent_stale item s).0 ≡ false)
      × (is_torrent_stale item (at_time now (is_torrent_stale item s).1)
          ≡ (true, at_time now (is_torrent_stale item s).1))
is_torrent_stale_probe item s t now h nz over soon =
    rw (stale_probe-step item s t h nz over)
      (refl, is_torrent_stale_open item _ _ (lookup-insert_same item _ _) (omega arith) soon)
