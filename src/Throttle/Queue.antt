-- ===== src/Throttle/Queue.antt =====
-- internal/throttle/queue.go: the counters of a queue. A step is a block under the queue's mutex: the
-- end of a call, or a count of a 429. The channel and the calls themselves are left out.
pub mod History
use warpbox.Base.{ℕ, suc, ◌+◌, ◌*◌, ◌/◌, Bool, true, false, List, [], ◌∷◌, ◌++◌, ltb, if◌then◌else◌}
use warpbox.Server.State.{minute}

-- `call_window` has the times of the last calls, the oldest first.
pub record Queue : Type 0 where
  pub rate : ℕ
  pub total_calls : ℕ
  pub call_window : List ℕ
  pub successful_calls : ℕ
  pub failed_calls : ℕ
  pub http_429_calls : ℕ

pub record Stats : Type 0 where
  pub total_calls : ℕ
  pub successful_calls : ℕ
  pub failed_calls : ℕ
  pub http_429_calls : ℕ
  pub calls_last_minute : ℕ
  pub requests_per_minute : ℕ

-- The argument is at least 1.
unfoldable pub new_queue : ℕ → Queue
new_queue requests_per_minute = record {
  rate = minute / requests_per_minute;
  total_calls = 0;
  call_window = [];
  successful_calls = 0;
  failed_calls = 0;
  http_429_calls = 0;
}

-- The window without the times more than a minute before `now`.
unfoldable pub trimmed : ℕ → List ℕ → List ℕ
trimmed now [] = []
trimmed now (t ∷ window) =
    let rest = trimmed now window in if ltb (t + minute) now then rest else t ∷ window

-- The end of a call that failed or not; `now` is the first reading of the clock, `later` the second.
unfoldable pub finish_call : Bool → ℕ → ℕ → Queue → Queue
finish_call failed now later q = record q {
  total_calls = suc q.total_calls;
  failed_calls = if failed then suc q.failed_calls else q.failed_calls;
  successful_calls = if failed then q.successful_calls else suc q.successful_calls;
  call_window = trimmed later (q.call_window ++ now ∷ []);
}

unfoldable pub record_429 : Queue → Queue
record_429 q = record q { http_429_calls = suc q.http_429_calls }

-- The times less than a minute before `now`.
unfoldable pub recent_calls : ℕ → List ℕ → ℕ
recent_calls now [] = 0
recent_calls now (t ∷ window) =
    let rest = recent_calls now window in if ltb now (t + minute) then suc rest else rest

unfoldable pub stats : ℕ → Queue → Stats
stats now q = record {
  total_calls = q.total_calls;
  successful_calls = q.successful_calls;
  failed_calls = q.failed_calls;
  http_429_calls = q.http_429_calls;
  calls_last_minute = recent_calls now q.call_window;
  requests_per_minute = minute / q.rate;
}
