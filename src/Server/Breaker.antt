-- ===== src/Server/Breaker.antt =====
-- internal/server/get.go and server.go: the circuit breaker of an item, and its error kinds.
pub mod Laws
pub mod Escalation
pub mod Threshold
use mathlib.Core.List.{reverse}
use warpbox.Base.{
  ℕ, zero, suc, ◌+◌, ◌*◌, ◌-◌, ◌^◌, Bool, true, false, not, ◌&&◌, ◌||◌, Option, none, some, List,
  [], ◌∷◌, ◌++◌, keep, ltb, leb, ◌==◌, if◌then◌else◌, length, take, drop,
}
use warpbox.Base.Int.{ℤ, pos, negsuc, wrap64, lt_int, le_int, pos_part}
use warpbox.Base.Text.{
  Text, codes, text_eq, index_from, index_byte, last_index_byte, trim_space, parse_int,
}
use warpbox.Base.Assoc.{Assoc, lookup, insert, remove}
use warpbox.Metadata.Record.{int_keys}
use warpbox.Server.State.{
  Server, Config, FailureKind, auth, transient, database_error, TorrentFailureTracker,
  empty_tracker, second, minute,
}
use warpbox.Server.Health.{within, global_degraded}

-- The code between the parentheses of `rest`, if they stand behind its first character.
abbrev code_of : Text → Option ℕ → Option ℕ → Text
code_of rest (some open_at) (some close_at) =
    if ltb 0 open_at && ltb open_at close_at
    then take (close_at - (open_at + 1)) (drop (open_at + 1) rest)
    else []
code_of rest _ _ = []

abbrev status_token : Text → Option ℕ → Text
status_token rest none = rest
status_token rest (some open_at) = trim_space (take open_at rest)

abbrev classify_status : ℤ → Text → FailureKind × Text
classify_status status [] = (transient, [])
classify_status status (c ∷ code) =
    if text_eq (c ∷ code) (codes "BAD_TOKEN")
    then (auth, c ∷ code)
    else if le_int (pos 500) status
    then (database_error, c ∷ code)
    else (transient, c ∷ code)

-- The part of an error behind the marker.
abbrev classify_rest : Text → FailureKind × Text
classify_rest rest =
    let code = code_of rest (index_byte rest b'(') (last_index_byte rest b')') in
    elim (parse_int (status_token rest (index_byte rest b'('))) [
      | none ↦ (transient, code)
      | some status ↦ classify_status status code
    ]

abbrev marker : Text
marker = codes "unexpected status "

-- The code calls it with an error only.
unfoldable pub classify_torbox_error : Text → FailureKind × Text
classify_torbox_error s = elim (index_from 0 s marker) [
  | none ↦ (transient, [])
  | some i ↦ classify_rest (drop (i + length marker) s)
]

abbrev pub breaker_probe_interval : ℕ
breaker_probe_interval = 15 * second

abbrev pub put_tracker : ℤ → TorrentFailureTracker → Server → Server
put_tracker item t s = record s { torrent_failures = insert item t s.torrent_failures }

abbrev is_zero_time : ℕ → Bool
is_zero_time t = t == 0

unfoldable pub is_torrent_stale : ℤ → Server → Bool × Server
is_torrent_stale item s = elim (lookup item s.torrent_failures) [
  | none ↦ (false, s)
  | some tracker ↦
      if is_zero_time tracker.stale_until
      then (false, s)
      else if ltb s.clock tracker.stale_until
      then (true, s)
      else (
        false,
        put_tracker item (record tracker { stale_until = s.clock + breaker_probe_interval }) s,
      )
]

-- An unset cap means no escalation beyond the base.
abbrev pub effective_cap : ℕ → ℕ → ℕ
effective_cap base cap = if cap == 0 then base else cap

-- The shifted window w, not below the base and not above the cap.
unfoldable pub clamped : ℕ → ℕ → ℤ → ℕ
clamped base cap w =
    let v : ℕ = if lt_int w (pos base) then base else pos_part w in if ltb cap v then cap else v

-- base << escalations in int64, clamped, in minutes
unfoldable pub escalated_minutes : ℕ → ℕ → ℕ → ℕ
unfolding clamped
escalated_minutes base cap escalations =
    clamped base (effective_cap base cap) (wrap64 (pos (base * 2 ^ escalations)))

abbrev pub downgraded : Bool → FailureKind → FailureKind
downgraded true database_error = transient
downgraded _ kind = kind

-- The failures in the sliding window, with the new one.
abbrev pub active_failures : Config → ℕ → List ℕ → List ℕ
active_failures cfg now failures =
    keep (within (cfg.circuit_breaker_window_sec * second) now) failures ++ now ∷ []

-- The tracker before the threshold is looked at.
abbrev pub noted : Config → ℕ → FailureKind → Text → TorrentFailureTracker → TorrentFailureTracker
noted cfg now kind err t = record t {
  last_err = err;
  error_code = (classify_torbox_error err).1;
  err_kind = some kind;
  failures = active_failures cfg now t.failures;
}

abbrev pub stale_for : ℕ → ℕ → TorrentFailureTracker → TorrentFailureTracker
stale_for now minutes t = record t { stale_until = now + minutes * minute; tripped_at = now }

-- The threshold is reached.
unfoldable pub trip : Config → ℕ → FailureKind → TorrentFailureTracker → TorrentFailureTracker
trip cfg now database_error t =
    let minutes =
      escalated_minutes cfg.circuit_breaker_stale_min cfg.circuit_breaker_max_stale_min
        t.escalations in
    stale_for now minutes (record t {
      quarantine_notified = (minutes == cfg.circuit_breaker_max_stale_min) || t.quarantine_notified;
      escalations = t.escalations + 1;
    })
trip cfg now _ t = stale_for now cfg.circuit_breaker_stale_min t

unfoldable pub updated_tracker :
    Config → ℕ → FailureKind → Text → TorrentFailureTracker → TorrentFailureTracker
unfolding trip
updated_tracker cfg now kind err t =
    let t' = noted cfg now kind err t in
    if ltb (length t'.failures) cfg.circuit_breaker_failures then t' else trip cfg now kind t'

abbrev pub tracker_of : Option TorrentFailureTracker → TorrentFailureTracker
tracker_of none = empty_tracker
tracker_of (some t) = t

unfoldable pub record_torrent_failure : Config → ℤ → FailureKind → Text → Server → Server
unfolding updated_tracker
record_torrent_failure cfg item kind err s =
    let kind' = downgraded (global_degraded cfg s) kind in
    put_tracker item
      (updated_tracker cfg s.clock kind' err (tracker_of (lookup item s.torrent_failures))) s

unfoldable pub clear_torrent_failure : ℤ → Server → Server
clear_torrent_failure item s = record s { torrent_failures = remove item s.torrent_failures }
