-- ===== src/Metadata/Stats.antt =====
-- internal/metadata/stats.go: the table of the time series. The column of times holds whole seconds:
-- the layout has fixed-width fields from the year down, so its texts are in the order of their seconds.
-- A value is a float64, whose type is a parameter. The driver's error, if a statement fails, is an
-- argument; a failed statement changes no row.
pub mod Grouped
use warpbox.Base.{
  ℕ, ◌-◌, ◌/◌, Bool, Option, none, some, List, [], ◌∷◌, ◌++◌, map, ltb, leb, if◌then◌else◌, keep,
  not, length,
}
use warpbox.Base.Text.{Text, text_eq}
use warpbox.Base.Assoc.{Assoc, lookup, insert}
use warpbox.Base.Result.{Result, ok, err}
use warpbox.Metadata.Record.{text_keys}

pub record StatsRecord (Value : Type 0) : Type 0 where
  pub timestamp : ℕ
  pub metric : Text
  pub value : Value

-- The second that a time is written as.
abbrev pub stamp : ℕ → ℕ
stamp t = t / 1_000_000_000

module _ {Value : Type 0} where
  -- One batch, in the order in which the map is read.
  abbrev pub batch : ℕ → Assoc Text Value → List (StatsRecord Value)
  batch now metrics = map (λ p. record { timestamp = stamp now; metric = p.0; value = p.1 }) metrics

  unfoldable pub record_stats :
      Option Text
      → ℕ
      → Assoc Text Value
      → List (StatsRecord Value)
      → Option Text × List (StatsRecord Value)
  record_stats (some e) now metrics table = (some e, table)
  record_stats none now metrics table = (none, table ++ batch now metrics)

  -- ORDER BY, for one term: rows of one key keep their order.
  unfoldable pub insert_by :
      (StatsRecord Value → StatsRecord Value → Bool)
      → StatsRecord Value
      → List (StatsRecord Value)
      → List (StatsRecord Value)
  insert_by before x [] = x ∷ []
  insert_by before x (y ∷ ys) =
      let rest = insert_by before x ys in if before y x then y ∷ rest else x ∷ y ∷ ys

  unfoldable pub order_by :
      (StatsRecord Value → StatsRecord Value → Bool)
      → List (StatsRecord Value)
      → List (StatsRecord Value)
  order_by before [] = []
  order_by before (x ∷ xs) = insert_by before x (order_by before xs)

  abbrev pub earlier : StatsRecord Value → StatsRecord Value → Bool
  earlier a b = ltb a.timestamp b.timestamp

  abbrev pub has_metric : Text → StatsRecord Value → Bool
  has_metric m r = text_eq r.metric m

  abbrev pub is_since : ℕ → StatsRecord Value → Bool
  is_since since r = leb (stamp since) r.timestamp

  -- result[m], which is nil for a metric that has no row
  unfoldable pub series : Text → Assoc Text (List (StatsRecord Value)) → List (StatsRecord Value)
  series m grouped = elim (lookup m grouped) [ none ↦ [] | some rows ↦ rows ]

  -- The loop over the rows: result[r.Metric] = append(result[r.Metric], r).
  unfoldable pub group :
      List (StatsRecord Value)
      → Assoc Text (List (StatsRecord Value))
      → Assoc Text (List (StatsRecord Value))
  group [] grouped = grouped
  group (r ∷ rows) grouped =
      group rows (insert r.metric (series r.metric grouped ++ r ∷ []) grouped)

  -- ORDER BY metric, timestamp, where `metric_before` is the order of the texts.
  unfoldable pub query_all_stats_since :
      (Text → Text → Bool)
      → Option Text
      → ℕ
      → List (StatsRecord Value)
      → Result (Assoc Text (List (StatsRecord Value)))
  query_all_stats_since metric_before (some e) since table = err e
  query_all_stats_since metric_before none since table = ok (
      group
        (order_by (λ a b. metric_before a.metric b.metric)
          (order_by earlier (keep (is_since since) table)))
        [])

  unfoldable pub get_all_metric_values_since :
      (Text → Text → Bool)
      → Option Text
      → ℕ
      → List (StatsRecord Value)
      → Result (Assoc Text (List Value))
  get_all_metric_values_since metric_before e since table =
      elim (query_all_stats_since metric_before e since table) [
        | err why ↦ err why
        | ok grouped ↦ ok (map (λ p. (p.0, map (λ r. r.value) p.1)) grouped)
      ]

  unfoldable pub query_stats :
      Option Text → Text → ℕ → List (StatsRecord Value) → Result (List (StatsRecord Value))
  query_stats (some e) m since table = err e
  query_stats none m since table =
      ok (order_by earlier (keep (has_metric m) (keep (is_since since) table)))

  unfoldable pub get_metric_values_since :
      Option Text → Text → ℕ → List (StatsRecord Value) → Result (List Value)
  get_metric_values_since e m since table = elim (query_stats e m since table) [
    | err why ↦ err why
    | ok rows ↦ ok (map (λ r. r.value) rows)
  ]

  -- A cutoff before the zero of the clock is written as the zero: no row is older than either.
  unfoldable pub prune_stats :
      Option Text → ℕ → ℕ → List (StatsRecord Value) → Result ℕ × List (StatsRecord Value)
  prune_stats (some e) now retention table = (err e, table)
  prune_stats none now retention table =
      let old : StatsRecord Value → Bool = λ r. ltb r.timestamp (stamp (now - retention)) in
      (ok (length (keep old table)), keep (λ r. not (old r)) table)
