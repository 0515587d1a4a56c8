-- ===== src/Server/Series/Recorded.antt =====
-- The chart of the successful calls against the ticks that recorded it.
use warpbox.Base.{
  ℕ, ◌-◌, ◌≤◌, ◌<◌, ◌≡◌, Bool, true, false, Option, none, some, List, [], ◌∷◌, leb, if◌then◌else◌,
  keep, All, ◌⊎◌, ◌&&◌,
}
use warpbox.Base.Int.{ℤ, pos}
use warpbox.Base.Text.{Text, codes}
use warpbox.Base.Assoc.{Assoc}
use warpbox.Metadata.Stats.{StatsRecord, stamp, is_since, has_metric}
use warpbox.Metadata.Stats.Grouped.{Ascending, Until}
use warpbox.Server.Series.{Tick, counters}

abbrev pub api_calls_success : Text
api_calls_success = codes "api_calls_success"

abbrev pub is_written : Option Text → Bool
is_written none = true
is_written (some e) = false

-- The clock does not go back, and neither does the counter, which is an int64.
abbrev pub Growing : ℕ → ℕ → List Tick → Type 0
Growing now calls [] = Unit
Growing now calls (t ∷ ts) =
    (now ≤ t.server.clock)
    × (calls ≤ (counters t).successful_calls)
    × ((counters t).successful_calls < 9_223_372_036_854_775_808)
    × Growing t.server.clock (counters t).successful_calls ts

-- No tick prunes a row of the window.
abbrev pub IsRetained : ℕ → ℕ → List Tick → Type 0
IsRetained retention since ts = All (λ t. (retention ≡ 0) ⊎ (t.later - retention ≤ since)) ts

module _ {Value : Type 0} (float64 : ℤ → Value) (percent : ℕ → ℕ → Value) where
  -- The calls of each interval whose sample was written in the window, oldest first.
  abbrev pub increments : ℕ → ℕ → List Tick → List (StatsRecord Value)
  increments since calls [] = []
  increments since calls (t ∷ ts) =
      let rest = increments since (counters t).successful_calls ts in
      if is_written t.record_error && leb (stamp since) (stamp t.server.clock)
      then record {
        timestamp = stamp t.server.clock;
        metric = api_calls_success;
        value = float64 (pos ((counters t).successful_calls - calls));
      }
        ∷ rest
      else rest

  -- The rows of the metric in the window.
  abbrev shown : ℕ → List (StatsRecord Value) → List (StatsRecord Value)
  shown since table = keep (has_metric api_calls_success) (keep (is_since since) table)

  -- The row of one tick, if it is written and in the window.
  abbrev row_of : ℕ → ℕ → Tick → List (StatsRecord Value)
  row_of since calls t =
      if is_written t.record_error && leb (stamp since) (stamp t.server.clock)
      then record {
        timestamp = stamp t.server.clock;
        metric = api_calls_success;
        value = float64 (pos ((counters t).successful_calls - calls));
      }
        ∷ []
      else []

  -- The rows stand in the order of their times, up to the clock.
  abbrev InOrder : ℕ → List (StatsRecord Value) → Type 0
  InOrder now table = Ascending table × Until (stamp now) table
