-- ===== src/Server/Sweep.antt =====
-- internal/server/server.go: sweepNegativeCache and sweepCircuitBreaker, which run now and then. The
-- sort of sort.Slice is a parameter: it may order entries of one deadline as it likes.
pub mod Bounds
use warpbox.Base.{
  ℕ, ◌-◌, Bool, not, ◌&&◌, List, [], ◌∷◌, map, ltb, ◌==◌, if◌then◌else◌, length, take, keep,
}
use warpbox.Base.Int.{ℤ}
use warpbox.Base.Text.{Text}
use warpbox.Base.Assoc.{KeyEq, Assoc, remove}
use warpbox.Metadata.Record.{text_keys, int_keys}
use warpbox.Server.State.{Server, Config, NegativeCacheEntry, TorrentFailureTracker}

module _ {K : Type 0} {V : Type 0} ⦃e : KeyEq K⦄ where
  -- The keys of some sorted entries, deleted.
  unfoldable pub evict : List (K × ℕ) → Assoc K V → Assoc K V
  evict [] m = m
  evict ((k, t) ∷ sorted) m = evict sorted (remove k m)

  abbrev pub deadlines : (V → ℕ) → Assoc K V → List (K × ℕ)
  deadlines deadline m = map (λ p. (p.0, deadline p.1)) m

  -- The entries that are not expired; of too many the ones of the earliest deadlines go.
  unfoldable pub swept :
      (List (K × ℕ) → List (K × ℕ)) → (V → ℕ) → (V → Bool) → ℕ → Assoc K V → Assoc K V
  swept sort deadline expired max_entries m =
      let rest = keep (λ p. not (expired p.1)) m in
      if ltb max_entries (length rest)
      then evict (take (length rest - max_entries) (sort (deadlines deadline rest))) rest
      else rest

unfoldable pub sweep_negative_cache : (List (Text × ℕ) → List (Text × ℕ)) → Config → Server → Server
sweep_negative_cache sort cfg s = record s {
  negative_cache =
      swept sort (λ v. v.expires_at) (λ v. ltb v.expires_at s.clock) cfg.negative_cache_max_entries
        s.negative_cache;
}

-- A tracker without a stale time is not expired.
unfoldable pub sweep_circuit_breaker : (List (ℤ × ℕ) → List (ℤ × ℕ)) → Config → Server → Server
sweep_circuit_breaker sort cfg s = record s {
  torrent_failures =
      swept sort (λ v. v.stale_until) (λ v. not (v.stale_until == 0) && ltb v.stale_until s.clock)
        cfg.circuit_breaker_max_entries s.torrent_failures;
}
