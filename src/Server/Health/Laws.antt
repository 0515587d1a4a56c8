-- ===== src/Server/Health/Laws.antt =====
-- The two readings of the window of API outcomes.
use warpbox.Base.{ℕ, ◌+◌, ◌≡◌, Bool, true, false, not, ◌&&◌, List, [], ◌∷◌, keep, length, arith}
use warpbox.Server.State.{Server, Config, RequestdlOutcome}
use warpbox.Server.Health.{
  within, health_window, count_outcomes, global_degraded, ApiHealth, health_step, health_loop,
  empty_health, requestdl_health,
}

-- The outcomes of a kind in the window.
abbrev pub recent : Bool → ℕ → ℕ → RequestdlOutcome → Bool
recent true window now o = o.ok && within window now o.at
recent false window now o = not o.ok && within window now o.at

count_outcomes_lem :
    (window now fails succ : ℕ) (os : List RequestdlOutcome)
    → count_outcomes window now fails succ os ≡ (
      fails + length (keep (recent false window now) os),
      succ + length (keep (recent true window now) os),
    )
unfolding count_outcomes keep
count_outcomes_lem window now fails succ [] = ground arith
count_outcomes_lem window now fails succ (o ∷ os) = ground (
  arith,
  count_outcomes_lem window now (fails + 1) succ os,
  count_outcomes_lem window now fails (succ + 1) os,
  count_outcomes_lem window now fails succ os,
)

abbrev one : Bool → ℕ
one true = 1
one false = 0

keep-one :
    (p : RequestdlOutcome → Bool) (o : RequestdlOutcome) (os : List RequestdlOutcome)
    → length (keep p (o ∷ os)) ≡ one (p o) + length (keep p os)
unfolding keep
keep-one p o os = ground arith

health_step_lem :
    (window now : ℕ) (h : ApiHealth) (o : RequestdlOutcome)
    → ((health_step window now h o).failures ≡ h.failures + one (recent false window now o))
      × ((health_step window now h o).successes ≡ h.successes + one (recent true window now o))
      × ((health_step window now h o).samples
          ≡ h.samples + one (recent false window now o) + one (recent true window now o))
unfolding health_step
health_step_lem window now h o = (ground arith, ground arith, ground arith)

health_loop_lem :
    (window now : ℕ) (h : ApiHealth) (os : List RequestdlOutcome)
    → ((health_loop window now h os).failures
        ≡ h.failures + length (keep (recent false window now) os))
      × ((health_loop window now h os).successes
          ≡ h.successes + length (keep (recent true window now) os))
      × ((health_loop window now h os).samples
          ≡ h.samples
            + length (keep (recent false window now) os)
            + length (keep (recent true window now) os))
unfolding health_loop keep
health_loop_lem window now h [] = (omega arith, omega arith, omega arith)
health_loop_lem window now h (o ∷ os) =
    let (f, s, n) = health_loop_lem window now (health_step window now h o) os in
    let (f', s', n') = health_step_lem window now h o in
    (
      omega (arith, f, f', keep-one (recent false window now) o os),
      omega (arith, s, s', keep-one (recent true window now) o os),
      omega (
        arith,
        n,
        n',
        keep-one (recent false window now) o os,
        keep-one (recent true window now) o os,
      ),
    )

-- The two readings of the window agree: requestdlHealth reports degraded exactly when globalDegraded
-- does, and its samples are its successes and failures.
pub health-degraded_agree :
    (cfg : Config) (s : Server)
    → ((requestdl_health cfg s).degraded ≡ global_degraded cfg s)
      × ((requestdl_health cfg s).samples
          ≡ (requestdl_health cfg s).failures + (requestdl_health cfg s).successes)
unfolding requestdl_health global_degraded
health-degraded_agree cfg s =
    let (f, g, n) = health_loop_lem (health_window cfg) s.clock empty_health s.outcomes in
    (
      ground (arith, f, g, n, count_outcomes_lem (health_window cfg) s.clock 0 0 s.outcomes),
      omega (arith, f, g, n),
    )
