-- ===== src/Examples/Traffic.antt =====
-- The theorems of byte ranges, of the rate limiter and of the queue.
use warpbox.Base.{ℕ, List, ◌*◌, refl, true, false, [], ◌∷◌, arith}
use warpbox.Base.Int.{pos}
use warpbox.Base.Text.{codes, has_prefix, index_byte, parse_int, trim_space, trim_prefix}
use warpbox.Metadata.Record.{int_keys}
use warpbox.Server.State.{second}
use warpbox.Server.Range.{HttpRange, parse_range}
use warpbox.Server.Range.Bounds.{IsWithin, parse_range-IsWithin}
use warpbox.Throttle.Queue.History.{Event, finished, limited}
use warpbox.Throttle.Limiter.{Limiter, new_limiter, starts}
use warpbox.Throttle.Limiter.Pace.{Spaced, starts-Spaced}

abbrev first_bytes : HttpRange
first_bytes = record { start = pos 10; end = pos 19; length = pos 10 }

parse_range-IsWithin_example : IsWithin 100 first_bytes
unfolding parse_range has_prefix trim_prefix index_byte trim_space parse_int
parse_range-IsWithin_example =
    parse_range-IsWithin (codes "bytes=10-19") 100 first_bytes (omega arith) refl (omega arith)

-- Three calls a minute, and rounds of two callers.
abbrev rounds : List ℕ
rounds = 100 * second ∷ 101 * second ∷ 120 * second ∷ 121 * second ∷ []

starts-Spaced_example : Spaced (new_limiter 3).rate (starts (new_limiter 3) rounds)
starts-Spaced_example =
    starts-Spaced (new_limiter 3) rounds
      (omega arith, (omega arith, (omega arith, (omega arith, tt))))

abbrev busy : Limiter
busy = record { rate = 20 * second; last_call = 100 * second }

-- Two calls, the first one long ago, and a 429.
abbrev events : List Event
events =
    finished true (10 * second) (11 * second)
    ∷ limited
    ∷ finished false (100 * second) (101 * second)
    ∷ []
