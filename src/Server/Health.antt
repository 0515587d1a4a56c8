-- ===== src/Server/Health.antt =====
-- internal/server/server.go: the rolling window of API outcomes.
pub mod Laws
use warpbox.Base.{
  ℕ, zero, suc, ◌+◌, ◌*◌, Bool, true, false, not, List, [], ◌∷◌, ◌++◌, keep, ltb, leb, ◌==◌,
  if◌then◌else◌,
}
use warpbox.Server.State.{Server, Config, RequestdlOutcome, second, minute}

abbrev pub global_health_min_samples : ℕ
global_health_min_samples = 5

abbrev pub default_global_health_window : ℕ
default_global_health_window = 5 * minute

unfoldable pub health_window : Config → ℕ
health_window cfg =
    if cfg.api_health_window_seconds == 0
    then default_global_health_window
    else cfg.api_health_window_seconds * second

-- t.After(now.Add(-window)), without the subtraction
abbrev pub within : ℕ → ℕ → ℕ → Bool
within window now t = ltb now (t + window)

unfoldable pub record_outcome : Config → Bool → Server → Server
record_outcome cfg ok s = record s {
  outcomes =
      keep (λ o. within (health_window cfg) s.clock o.at)
        (s.outcomes ++ record { at = s.clock; ok = ok } ∷ []);
}

-- The loop of globalDegraded over the outcomes: failures and successes.
unfoldable pub count_outcomes : ℕ → ℕ → ℕ → ℕ → List RequestdlOutcome → ℕ × ℕ
count_outcomes window now fails succ [] = (fails, succ)
count_outcomes window now fails succ (o ∷ os) =
    let recent = within window now o.at in
    count_outcomes window now (if recent then (if o.ok then fails else fails + 1) else fails)
      (if recent then (if o.ok then succ + 1 else succ) else succ) os

-- fails / total >= 0.8: the float64 quotient is at least the constant exactly if the fraction is, for
-- totals below 10^14.
abbrev pub ratio_reached : ℕ → ℕ → Bool
ratio_reached fails total = leb (4 * total) (5 * fails)

unfoldable pub global_degraded : Config → Server → Bool
unfolding count_outcomes
global_degraded cfg s =
    let (fails, succ) = count_outcomes (health_window cfg) s.clock 0 0 s.outcomes in
    if ltb (fails + succ) global_health_min_samples
    then false
    else if succ == 0
    then true
    else ratio_reached fails (fails + succ)

pub record ApiHealth : Type 0 where
  pub samples : ℕ
  pub successes : ℕ
  pub failures : ℕ
  pub last_success : ℕ
  pub last_failure : ℕ
  pub degraded : Bool
  pub too_few : Bool

-- One round of the loop of requestdlHealth: the counters of the snapshot.
unfoldable pub health_step : ℕ → ℕ → ApiHealth → RequestdlOutcome → ApiHealth
health_step window now h o =
    if not (within window now o.at)
    then h
    else if o.ok
    then record h {
      samples = h.samples + 1;
      successes = h.successes + 1;
      last_success = if ltb h.last_success o.at then o.at else h.last_success;
    }
    else record h {
      samples = h.samples + 1;
      failures = h.failures + 1;
      last_failure = if ltb h.last_failure o.at then o.at else h.last_failure;
    }

unfoldable pub health_loop : ℕ → ℕ → ApiHealth → List RequestdlOutcome → ApiHealth
health_loop window now h [] = h
health_loop window now h (o ∷ os) = health_loop window now (health_step window now h o) os

abbrev pub empty_health : ApiHealth
empty_health = record {
  samples = 0;
  successes = 0;
  failures = 0;
  last_success = 0;
  last_failure = 0;
  degraded = false;
  too_few = false;
}

-- The Ratio, a float for display, is left out.
unfoldable pub requestdl_health : Config → Server → ApiHealth
unfolding health_loop
requestdl_health cfg s =
    let h = health_loop (health_window cfg) s.clock empty_health s.outcomes in
    let few = ltb h.samples global_health_min_samples in
    record h {
      too_few = few;
      degraded =
          if few
          then false
          else if h.successes == 0
          then true
          else ratio_reached h.failures h.samples;
    }
