-- ===== src/Server/Metrics/Both.antt =====
-- throttleStats against the histories of both queues.
use warpbox.Base.{
  ℕ, ◌+◌, ◌≡◌, refl, ap₂, ◌∙◌, Bool, some, List, [], ◌∷◌, ◌++◌, ltb, if◌then◌else◌, arith,
}
use warpbox.Throttle.Queue.{Stats, new_queue, stats}
use warpbox.Throttle.Queue.History.{
  Event, run, count, is_call, is_429, has_failed, has_succeeded, is_recent, Before, summary,
  stats-summary,
}
use warpbox.Server.Metrics.{throttle_stats}

count-append :
    (p : Event → Bool) (xs ys : List Event) → count p (xs ++ ys) ≡ count p xs + count p ys
count-append p [] ys = omega arith
count-append p (x ∷ xs) ys = ground (arith, count-append p xs ys)

-- The summary of two histories together, with each 429 counted once.
abbrev pub joint_summary : ℕ → ℕ → List Event → List Event → Stats
joint_summary requests_per_minute at played synced =
    record (summary requests_per_minute at (played ++ synced)) {
      http_429_calls = count is_429 played;
    }

both :
    (requests_per_minute sync_rate at : ℕ) (played synced : List Event)
    → count is_429 played ≡ count is_429 synced
    → throttle_stats (summary requests_per_minute at played) (some (summary sync_rate at synced))
      ≡ joint_summary requests_per_minute at played synced
unfolding throttle_stats
both requests_per_minute sync_rate at played synced same =
    let once : (if ltb (count is_429 played) (count is_429 synced)
          then count is_429 synced
          else count is_429 played)
        ≡ count is_429 played =
      ground arith in
    rw
      (
        once,
        count-append is_call played synced,
        count-append has_succeeded played synced,
        count-append has_failed played synced,
        count-append (is_recent at) played synced,
      )
      refl

-- At a time behind all calls of both queues, if each 429 was recorded on both, the counters that the
-- server shows are those of the two histories together, with each 429 counted once.
pub throttle_stats-summary :
    (requests_per_minute sync_rate at : ℕ) (played synced : List Event)
    → Before at played
    → Before at synced
    → count is_429 played ≡ count is_429 synced
    → throttle_stats
        (stats at (run played (new_queue requests_per_minute)))
        (some (stats at (run synced (new_queue sync_rate))))
      ≡ joint_summary requests_per_minute at played synced
throttle_stats-summary requests_per_minute sync_rate at played synced hp hs same =
    ap₂ (λ a b. throttle_stats a (some b)) (stats-summary requests_per_minute at played hp)
      (stats-summary sync_rate at synced hs)
    ∙ both requests_per_minute sync_rate at played synced same
