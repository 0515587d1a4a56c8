-- ===== src/Examples/Charts.antt =====
-- The theorem of the time series, at three ticks of which the second fails to write.
use warpbox.Base.{ℕ, ◌*◌, Option, none, some, List, [], ◌∷◌}
use warpbox.Base.Int.{ℤ}
use warpbox.Base.Text.{Text, codes}
use warpbox.Base.Assoc.{Assoc}
use warpbox.Server.State.{second}
use warpbox.Server.Series.{Tick}
use warpbox.Throttle.Queue.{Stats}
use warpbox.Examples.Setup.{server}

abbrev calls_made : ℕ → Stats
calls_made n = record {
  total_calls = n;
  successful_calls = n;
  failed_calls = 0;
  http_429_calls = 0;
  calls_last_minute = 0;
  requests_per_minute = 60;
}

abbrev tick_at : ℕ → ℕ → Option Text → Tick
tick_at now n e = record {
  server = record server { clock = now * second };
  playback = calls_made n;
  sync = none;
  mem = record { sys = 0; alloc = 0; heap_objects = 0; num_gc = 0 };
  record_error = e;
  prune_error = none;
  later = now * second;
}

abbrev ticks : List Tick
ticks =
    tick_at 5000 3 none
    ∷ tick_at 5060 8 (some (codes "database is locked"))
    ∷ tick_at 5120 10 none
    ∷ []

-- Every metric is its integer; the percentage plays no part.
abbrev float64 : ℤ → ℤ
float64 z = z

abbrev percent : ℕ → ℕ → ℤ
percent successes samples = ℤ.pos successes
