-- ===== src/Server/Breaker/Threshold.antt =====
-- What failures in a row do to the breaker of an item.
use warpbox.Base.{
  ℕ, ◌+◌, ◌*◌, ◌≤◌, ◌<◌, ◌≡◌, refl, sym, true, false, none, some, List, [], ◌∷◌, ◌++◌, keep, length,
  ltb, arith, All, Bool-cases, Option-cases, inl, inr, lt→ltb, le→ltb, ap, ◌∙◌, subst, append-nil,
  append_assoc, length-append, All-append,
}
use warpbox.Base.Int.{ℤ}
use warpbox.Base.Text.{Text}
use warpbox.Base.Assoc.{lookup}
use warpbox.Metadata.Record.{int_keys}
use warpbox.Server.State.{
  Server, Config, FailureKind, auth, transient, database_error, TorrentFailureTracker, second,
  minute,
}
use warpbox.Server.Health.{within, global_degraded}
use warpbox.Server.Breaker.{
  is_torrent_stale, effective_cap, record_torrent_failure, updated_tracker, trip, active_failures,
  noted, downgraded, tracker_of,
}
use warpbox.Server.Breaker.Escalation.{escalated_minutes_bounds}
use warpbox.Server.Breaker.Laws.{at_time, lookup-insert_same, is_torrent_stale_open}

-- A failure of the item at a time.
abbrev pub fails_at : Config → ℤ → FailureKind → Text → ℕ → Server → Server
fails_at cfg item kind e now s = record_torrent_failure cfg item kind e (at_time now s)

unfoldable pub failures_at : Config → ℤ → FailureKind → Text → List ℕ → Server → Server
failures_at cfg item kind e [] s = s
failures_at cfg item kind e (now ∷ later) s =
    failures_at cfg item kind e later (fails_at cfg item kind e now s)

trip-failures :
    (cfg : Config) (now : ℕ) (kind : FailureKind) (t : TorrentFailureTracker)
    → (trip cfg now kind t).failures ≡ t.failures
unfolding trip
trip-failures cfg now auth t = refl
trip-failures cfg now transient t = refl
trip-failures cfg now database_error t = refl

-- The stale window begins now and has at least the base length.
trip-stale_until :
    (cfg : Config) (now : ℕ) (kind : FailureKind) (t : TorrentFailureTracker)
    → cfg.circuit_breaker_stale_min
      ≤ effective_cap cfg.circuit_breaker_stale_min cfg.circuit_breaker_max_stale_min
    → now + cfg.circuit_breaker_stale_min * minute ≤ (trip cfg now kind t).stale_until
unfolding trip
trip-stale_until cfg now auth t le = omega arith
trip-stale_until cfg now transient t le = omega arith
trip-stale_until cfg now database_error t le =
    let bounds =
      escalated_minutes_bounds cfg.circuit_breaker_stale_min cfg.circuit_breaker_max_stale_min
        t.escalations le in
    omega arith

updated-failures :
    (cfg : Config) (now : ℕ) (kind : FailureKind) (e : Text) (t : TorrentFailureTracker)
    → (updated_tracker cfg now kind e t).failures ≡ active_failures cfg now t.failures
unfolding updated_tracker
updated-failures cfg now kind e t =
    elim (Bool-cases
      (ltb (length (active_failures cfg now t.failures)) cfg.circuit_breaker_failures)) [
        | inl few ↦ rw few refl
        | inr many ↦ rw many (trip-failures cfg now kind (noted cfg now kind e t))
      ]

updated-closed :
    (cfg : Config) (now : ℕ) (kind : FailureKind) (e : Text) (t : TorrentFailureTracker)
    → length (active_failures cfg now t.failures) < cfg.circuit_breaker_failures
    → (updated_tracker cfg now kind e t).stale_until ≡ t.stale_until
unfolding updated_tracker
updated-closed cfg now kind e t few = rw (lt→ltb _ _ few) refl

updated-opened :
    (cfg : Config) (now : ℕ) (kind : FailureKind) (e : Text) (t : TorrentFailureTracker)
    → cfg.circuit_breaker_failures ≤ length (active_failures cfg now t.failures)
    → cfg.circuit_breaker_stale_min
      ≤ effective_cap cfg.circuit_breaker_stale_min cfg.circuit_breaker_max_stale_min
    → now + cfg.circuit_breaker_stale_min * minute ≤ (updated_tracker cfg now kind e t).stale_until
unfolding updated_tracker
updated-opened cfg now kind e t many le =
    rw (le→ltb _ _ many) (trip-stale_until cfg now kind (noted cfg now kind e t) le)

-- Times that one window holds.
abbrev pub InWindow : Config → ℕ → ℕ → Type 0
InWindow cfg start t = (start ≤ t) × (t < start + cfg.circuit_breaker_window_sec * second)

keep_window :
    (cfg : Config) (start now : ℕ) (done : List ℕ)
    → All (InWindow cfg start) done
    → InWindow cfg start now
    → keep (within (cfg.circuit_breaker_window_sec * second) now) done ≡ done
unfolding keep
keep_window cfg start now [] all h = refl
keep_window cfg start now (t ∷ done) (ht, all) h =
    rw (keep_window cfg start now done all h)
      (rw (lt→ltb now (t + cfg.circuit_breaker_window_sec * second) (omega arith)) refl)

-- The tracker that the server holds, or the one it starts with.
abbrev pub tracker : ℤ → Server → TorrentFailureTracker
tracker item s = tracker_of (lookup item s.torrent_failures)

abbrev kind_at : Config → FailureKind → ℕ → Server → FailureKind
kind_at cfg kind now s = downgraded (global_degraded cfg (at_time now s)) kind

lookup-fails_at :
    (cfg : Config) (item : ℤ) (kind : FailureKind) (e : Text) (now : ℕ) (s : Server)
    → lookup item (fails_at cfg item kind e now s).torrent_failures
      ≡ some (updated_tracker cfg now (kind_at cfg kind now s) e (tracker item s))
unfolding record_torrent_failure
lookup-fails_at cfg item kind e now s = lookup-insert_same item _ s.torrent_failures

-- The item has failed at the given times, and its breaker has not opened.
abbrev FailedAt : ℤ → List ℕ → Server → Type 0
FailedAt item done s = ((tracker item s).failures ≡ done) × ((tracker item s).stale_until ≡ 0)

module _ (cfg : Config) (item : ℤ) (kind : FailureKind) (e : Text) (start : ℕ) where
  active_failures-window :
      (done : List ℕ) (now : ℕ)
      → All (InWindow cfg start) done
      → InWindow cfg start now
      → active_failures cfg now done ≡ done ++ now ∷ []
  active_failures-window done now all h = rw (keep_window cfg start now done all h) refl

  fails_at-closed :
      (done : List ℕ) (now : ℕ) (s : Server)
      → FailedAt item done s
      → All (InWindow cfg start) done
      → InWindow cfg start now
      → length (done ++ now ∷ []) < cfg.circuit_breaker_failures
      → FailedAt item (done ++ now ∷ []) (fails_at cfg item kind e now s)
  fails_at-closed done now s (hf, hs) all h few =
      let active = ap (active_failures cfg now) hf ∙ active_failures-window done now all h in
      let kind' = kind_at cfg kind now s in
      rw (lookup-fails_at cfg item kind e now s) (
        updated-failures cfg now kind' e (tracker item s) ∙ active,
        updated-closed cfg now kind' e (tracker item s)
              (subst (λ l. length l < cfg.circuit_breaker_failures) (sym active) few)
            ∙ hs,
      )

  fails_at-opened :
      (done : List ℕ) (now : ℕ) (s : Server)
      → FailedAt item done s
      → All (InWindow cfg start) done
      → InWindow cfg start now
      → cfg.circuit_breaker_failures ≤ length (done ++ now ∷ [])
      → cfg.circuit_breaker_stale_min
        ≤ effective_cap cfg.circuit_breaker_stale_min cfg.circuit_breaker_max_stale_min
      → now + cfg.circuit_breaker_stale_min * minute
        ≤ (tracker item (fails_at cfg item kind e now s)).stale_until
  fails_at-opened done now s (hf, hs) all h many le =
      let active = ap (active_failures cfg now) hf ∙ active_failures-window done now all h in
      rw (lookup-fails_at cfg item kind e now s) (
        updated-opened cfg now (kind_at cfg kind now s) e (tracker item s)
          (subst (λ l. cfg.circuit_breaker_failures ≤ length l) (sym active) many) le)

  failures_at-closed :
      (done later : List ℕ) (s : Server)
      → FailedAt item done s
      → All (InWindow cfg start) done
      → All (InWindow cfg start) later
      → length done + length later < cfg.circuit_breaker_failures
      → FailedAt item (done ++ later) (failures_at cfg item kind e later s)
  unfolding failures_at
  failures_at-closed done [] s failed all _ few =
      subst (λ l. FailedAt item l s) (sym (append-nil done)) failed
  failures_at-closed done (now ∷ later) s failed all (h, hs) few =
      let count = length-append done (now ∷ []) in
      let next = fails_at cfg item kind e now s in
      subst (λ l. FailedAt item l (failures_at cfg item kind e later next))
        (append_assoc done (now ∷ []) later)
        (failures_at-closed (done ++ now ∷ []) later next
          (fails_at-closed done now s failed all h (omega arith))
          (All-append (InWindow cfg start) done (now ∷ []) all (h, tt)) hs (omega arith))

-- failures_at over a list and one more time.
failures_at-append :
    (cfg : Config) (item : ℤ) (kind : FailureKind) (e : Text) (early : List ℕ) (last : ℕ)
    (s : Server)
    → failures_at cfg item kind e (early ++ last ∷ []) s
      ≡ fails_at cfg item kind e last (failures_at cfg item kind e early s)
unfolding failures_at
failures_at-append cfg item kind e [] last s = refl
failures_at-append cfg item kind e (now ∷ early) last s =
    failures_at-append cfg item kind e early last (fails_at cfg item kind e now s)

is_torrent_stale_fresh :
    (item : ℤ) (s : Server)
    → (tracker item s).stale_until ≡ 0
    → is_torrent_stale item s ≡ (false, s)
unfolding is_torrent_stale
is_torrent_stale_fresh item s h = elim (Option-cases (lookup item s.torrent_failures)) [
  | inl absent ↦ rw (absent, is_torrent_stale) refl
  | inr (t, found) ↦ let h' = rw found at h in rw (found, is_torrent_stale) (ground arith)
]

is_torrent_stale_until :
    (item : ℤ) (now : ℕ) (s : Server)
    → now < (tracker item s).stale_until
    → is_torrent_stale item (at_time now s) ≡ (true, at_time now s)
is_torrent_stale_until item now s soon = elim (Option-cases (lookup item s.torrent_failures)) [
  | inl absent ↦ let h = rw absent at soon in ground arith
  | inr (t, found) ↦
      let h : now < t.stale_until = rw found at soon in
      is_torrent_stale_open item (at_time now s) t found (omega arith) h
]

-- An item with no record of failures, failures that all lie in one window, and a stale time of at
-- least a minute that the cap, if set, allows: one failure fewer than the threshold leaves the
-- breaker closed, and the failure that reaches it opens the breaker for at least the configured time,
-- in which every call is told stale and changes nothing.
pub threshold_opens_breaker :
    (cfg : Config) (item : ℤ) (kind : FailureKind) (e : Text) (start : ℕ) (early : List ℕ)
    (last now : ℕ) (s : Server)
    → lookup item s.torrent_failures ≡ none
    → All (InWindow cfg start) early
    → InWindow cfg start last
    → length early + 1 ≡ cfg.circuit_breaker_failures
    → 1 ≤ cfg.circuit_breaker_stale_min
    → cfg.circuit_breaker_stale_min
      ≤ effective_cap cfg.circuit_breaker_stale_min cfg.circuit_breaker_max_stale_min
    → now < last + cfg.circuit_breaker_stale_min * minute
    → let before = at_time last (failures_at cfg item kind e early s) in
      let after = at_time now (failures_at cfg item kind e (early ++ last ∷ []) s) in
      (is_torrent_stale item before ≡ (false, before))
      × (is_torrent_stale item after ≡ (true, after))
threshold_opens_breaker cfg item kind e start early last now s new all h reached pos_min le soon =
    let none_yet : FailedAt item [] s = (rw new refl, rw new refl) in
    let earlier = failures_at cfg item kind e early s in
    let failed =
      failures_at-closed cfg item kind e start [] early s none_yet tt all (omega arith) in
    let count = length-append early (last ∷ []) in
    let opened =
      fails_at-opened cfg item kind e start early last earlier failed all h (omega arith) le in
    (
      is_torrent_stale_fresh item (at_time last earlier) failed.1,
      subst (λ after. is_torrent_stale item (at_time now after) ≡ (true, at_time now after))
          (sym (failures_at-append cfg item kind e early last s))
          (is_torrent_stale_until item now (fails_at cfg item kind e last earlier) (omega arith)),
    )
