-- ===== src/Throttle/Limiter.antt =====
-- internal/throttle/queue.go: the limiter that the queues share. One round of the loop in Wait, which
-- runs under the mutex, is one step; the rounds of all callers form one sequence.
pub mod Pace
use warpbox.Base.{
  ℕ, ◌+◌, ◌-◌, ◌/◌, Bool, true, false, ◌||◌, List, [], ◌∷◌, if◌then◌else◌, leb, ◌==◌,
}
use warpbox.Server.State.{minute}

-- Durations and times in nanoseconds; `last_call` is 0 before the first start.
pub record Limiter : Type 0 where
  pub rate : ℕ
  pub last_call : ℕ

-- The argument is at least 1: the constructor divides by it.
unfoldable pub new_limiter : ℕ → Limiter
new_limiter requests_per_minute = record { rate = minute / requests_per_minute; last_call = 0 }

-- elapsed >= l.rate, where the time since the zero time is as long as a duration can be
abbrev pub is_due : Limiter → ℕ → Bool
is_due l now = (l.last_call == 0) || leb (l.last_call + l.rate) now

-- One round at a time: whether it reserves the start, and how long the caller waits if not.
unfoldable pub wait_round : Limiter → ℕ → Bool × Limiter
wait_round l now = if is_due l now then (true, record l { last_call = now }) else (false, l)

-- l.rate - elapsed, which is positive where a caller waits
abbrev pub wait_time : Limiter → ℕ → ℕ
wait_time l now = (l.last_call + l.rate) - now

-- The starts that a sequence of rounds reserves, in their order.
unfoldable pub starts : Limiter → List ℕ → List ℕ
unfolding wait_round
starts l [] = []
starts l (now ∷ rounds) =
    let (due, l') = wait_round l now in
    let later = starts l' rounds in if due then now ∷ later else later
