-- ===== src/Throttle/Queue/History.antt =====
-- The counters and the trimmed window of a queue, against its whole history.
use warpbox.Base.{
  ℕ, suc, ◌+◌, ◌≤◌, ◌≡◌, refl, Bool, true, false, not, List, [], ◌∷◌, ◌++◌, ltb, if◌then◌else◌,
  arith, ◌/◌,
}
use native.Mathlib.Nat.{zero-add}
use warpbox.Server.State.{minute}
use warpbox.Throttle.Queue.{
  Queue, Stats, new_queue, trimmed, finish_call, record_429, recent_calls, stats,
}

-- What happens to a queue.
pub data Event : Type 0 where
  finished : Bool → ℕ → ℕ → Event
  limited : Event

abbrev pub step : Event → Queue → Queue
step (finished failed now later) q = finish_call failed now later q
step limited q = record_429 q

abbrev pub run : List Event → Queue → Queue
run [] q = q
run (e ∷ events) q = run events (step e q)

-- How many of the events pass a test.
abbrev pub count : (Event → Bool) → List Event → ℕ
count p [] = 0
count p (e ∷ events) = let rest = count p events in if p e then suc rest else rest

abbrev pub is_call : Event → Bool
is_call (finished failed now later) = true
is_call limited = false

abbrev pub has_failed : Event → Bool
has_failed (finished failed now later) = failed
has_failed limited = false

abbrev pub has_succeeded : Event → Bool
has_succeeded (finished failed now later) = not failed
has_succeeded limited = false

abbrev pub is_429 : Event → Bool
is_429 (finished failed now later) = false
is_429 limited = true

abbrev pub is_recent : ℕ → Event → Bool
is_recent at (finished failed now later) = ltb at (now + minute)
is_recent at limited = false

-- The statistics of a whole history, without a window.
abbrev pub summary : ℕ → ℕ → List Event → Stats
summary requests_per_minute at events = record {
  total_calls = count is_call events;
  successful_calls = count has_succeeded events;
  failed_calls = count has_failed events;
  http_429_calls = count is_429 events;
  calls_last_minute = count (is_recent at) events;
  requests_per_minute = minute / (minute / requests_per_minute);
}

-- No event reads the clock after `at`.
abbrev pub Before : ℕ → List Event → Type 0
Before at [] = Unit
Before at (finished failed now later ∷ events) = (later ≤ at) × Before at events
Before at (limited ∷ events) = Before at events

recent_calls-trimmed :
    (at now : ℕ) (window : List ℕ)
    → now ≤ at
    → recent_calls at (trimmed now window) ≡ recent_calls at window
unfolding recent_calls trimmed
recent_calls-trimmed at now [] h = refl
recent_calls-trimmed at now (t ∷ window) h = ground (arith, recent_calls-trimmed at now window h)

recent_calls-snoc :
    (at now : ℕ) (window : List ℕ)
    → recent_calls at (window ++ now ∷ [])
      ≡ recent_calls at window + (if ltb at (now + minute) then 1 else 0)
unfolding recent_calls
recent_calls-snoc at now [] = ground arith
recent_calls-snoc at now (t ∷ window) = ground (arith, recent_calls-snoc at now window)

-- The counters after some events, from a queue q on.
record Counted (at : ℕ) (events : List Event) (q q' : Queue) : Type 0 where
  rate : q'.rate ≡ q.rate
  total : q'.total_calls ≡ q.total_calls + count is_call events
  successful : q'.successful_calls ≡ q.successful_calls + count has_succeeded events
  failed : q'.failed_calls ≡ q.failed_calls + count has_failed events
  limits : q'.http_429_calls ≡ q.http_429_calls + count is_429 events
  last_minute :
      recent_calls at q'.call_window ≡ recent_calls at q.call_window + count (is_recent at) events

run-Counted :
    (at : ℕ) (events : List Event) (q : Queue)
    → Before at events
    → Counted at events q (run events q)
unfolding finish_call record_429
run-Counted at [] q h = record {
  rate = refl;
  total = omega arith;
  successful = omega arith;
  failed = omega arith;
  limits = omega arith;
  last_minute = omega arith;
}
run-Counted at (limited ∷ events) q h =
    let rest = run-Counted at events (record_429 q) h in
    record {
      rate = rest.rate;
      total = ground (arith, rest.total);
      successful = ground (arith, rest.successful);
      failed = ground (arith, rest.failed);
      limits = ground (arith, rest.limits);
      last_minute = ground (arith, rest.last_minute);
    }
run-Counted at (finished failed now later ∷ events) q (early, h) =
    let rest = run-Counted at events (finish_call failed now later q) h in
    let kept = recent_calls-trimmed at later (q.call_window ++ now ∷ []) early in
    let added = recent_calls-snoc at now q.call_window in
    record {
      rate = rest.rate;
      total = ground (arith, rest.total);
      successful = ground (arith, rest.successful);
      failed = ground (arith, rest.failed);
      limits = ground (arith, rest.limits);
      last_minute = ground (arith, rest.last_minute, kept, added);
    }

-- The statistics of a queue at a time behind all of its calls and counts of 429 are those of its whole
-- history: the counts of calls, of failures and of 429, and the calls of the last minute, of which the
-- trimmed window has lost none.
pub stats-summary :
    (requests_per_minute at : ℕ) (events : List Event)
    → Before at events
    → stats at (run events (new_queue requests_per_minute)) ≡ summary requests_per_minute at events
unfolding stats new_queue recent_calls
stats-summary requests_per_minute at events before =
    let c = run-Counted at events (new_queue requests_per_minute) before in
    rw
      (
        c.rate, c.total, c.successful, c.failed, c.limits, c.last_minute, zero-add, zero-add,
        zero-add, zero-add, zero-add,
      )
      refl
