-- ===== src/Server/Missing.antt =====
-- PruneBreakerForMissingItems of internal/server/server.go, and the OnSyncDone of cmd/warpbox/main.go
-- that calls it with the items in the store at the end of a sync.
pub mod Forgets
pub mod Synced
use warpbox.Base.{
  Bool, true, false, not, Option, none, some, List, [], ◌∷◌, ◌++◌, map, ◌==◌, any, keep,
}
use warpbox.Base.Int.{ℤ, eq_int}
use warpbox.Base.Text.{Text, parse_int}
use warpbox.Metadata.Store.{ItemDir}
use warpbox.Metadata.Sync.{Outcome}
use warpbox.Server.State.{Server}

-- strings.Split(s, ":"), with the part that is being read in front
unfoldable pub split_colon : Text → Text → List Text
split_colon cur [] = cur ∷ []
split_colon cur (c ∷ s) = elim (c == b':') [
  | true ↦ cur ∷ split_colon [] s
  | false ↦ split_colon (cur ++ c ∷ []) s
]

unfoldable pub is_live : List ℤ → ℤ → Bool
is_live live id = any (eq_int id) live

-- Whether the loop deletes a key: one of three parts, of which the second is an id that is not live.
abbrev pub parts_missing : List ℤ → List Text → Bool
parts_missing live (source ∷ item ∷ file ∷ []) = elim (parse_int item) [
  | none ↦ false
  | some id ↦ not (is_live live id)
]
parts_missing live parts = false

unfoldable pub prune_breaker_for_missing_items : List ℤ → Server → Server
prune_breaker_for_missing_items live s = record s {
  torrent_failures = keep (λ p. is_live live p.0) s.torrent_failures;
  negative_cache = keep (λ p. not (parts_missing live (split_colon [] p.0))) s.negative_cache;
}

unfoldable pub on_sync_done : List ItemDir → Server → Server
on_sync_done items s = prune_breaker_for_missing_items (map (λ it. it.item_id) items) s

-- What a sync cycle leaves of the server.
unfoldable pub after_sync : Outcome → Server → Server
after_sync outcome s = elim outcome.live [ none ↦ s | some items ↦ on_sync_done items s ]
