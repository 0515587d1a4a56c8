-- ===== src/Metadata/Stats/Grouped.antt =====
-- What the grouped query holds for one metric.
use warpbox.Base.{
  ℕ, ◌-◌, ◌≤◌, ◌≡◌, refl, sym, ◌∙◌, ap, Bool, true, false, none, List, [], ◌∷◌, ◌++◌, if◌then◌else◌,
  keep, All, Bool-cases, inl, inr, ◌⊎◌, arith, append_assoc, append-nil,
}
use warpbox.Base.Text.{Text, text_eq, text_eq_iff}
use warpbox.Base.Assoc.{Assoc, lookup, insert, lookup-insert}
use warpbox.Base.Result.{ok}
use warpbox.Metadata.Record.{text_keys}
use warpbox.Metadata.Stats.{
  StatsRecord, batch, stamp, is_since, insert_by, order_by, earlier, has_metric, series, group,
  query_all_stats_since, prune_stats,
}

module _ {Value : Type 0} where
  -- The times do not go back.
  abbrev pub Ascending : List (StatsRecord Value) → Type 0
  Ascending [] = Unit
  Ascending (r ∷ rows) = All (λ q. r.timestamp ≤ q.timestamp) rows × Ascending rows

  pub order_by-Ascending :
      (rows : List (StatsRecord Value)) → Ascending rows → order_by earlier rows ≡ rows
  unfolding order_by insert_by
  order_by-Ascending [] h = refl
  order_by-Ascending (r ∷ []) h = refl
  order_by-Ascending (r ∷ q ∷ rows) h = rw (order_by-Ascending (q ∷ rows) h.1) (ground arith)

  -- A metric keeps its order if the rows are ordered by metric.
  keep-insert_by :
      (before : Text → Text → Bool)
      → ((t : Text) → before t t ≡ false)
      → (m : Text) (x : StatsRecord Value) (rows : List (StatsRecord Value))
      → keep (has_metric m) (insert_by (λ a b. before a.metric b.metric) x rows)
        ≡ keep (has_metric m) (x ∷ rows)
  unfolding keep insert_by
  keep-insert_by before irr m x [] = refl
  keep-insert_by before irr m x (y ∷ rows) = ground (
    arith,
    keep-insert_by before irr m x rows,
    irr m,
    text_eq_iff x.metric m,
    text_eq_iff y.metric m,
  )

  pub keep-order_by :
      (before : Text → Text → Bool)
      → ((t : Text) → before t t ≡ false)
      → (m : Text) (rows : List (StatsRecord Value))
      → keep (has_metric m) (order_by (λ a b. before a.metric b.metric) rows)
        ≡ keep (has_metric m) rows
  unfolding keep order_by
  keep-order_by before irr m [] = refl
  keep-order_by before irr m (r ∷ rows) =
      keep-insert_by before irr m r (order_by (λ a b. before a.metric b.metric) rows)
      ∙ rw (keep-order_by before irr m rows) refl

  series-insert :
      (m k : Text) (rows : List (StatsRecord Value))
      (grouped : Assoc Text (List (StatsRecord Value)))
      → series m (insert k rows grouped) ≡ (if text_eq k m then rows else series m grouped)
  unfolding series
  series-insert m k rows grouped = ground (arith, lookup-insert k m rows grouped)

  pub series-group :
      (m : Text) (rows : List (StatsRecord Value)) (grouped : Assoc Text (List (StatsRecord Value)))
      → series m (group rows grouped) ≡ series m grouped ++ keep (has_metric m) rows
  unfolding group keep
  series-group m [] grouped = sym (append-nil (series m grouped))
  series-group m (r ∷ rows) grouped =
      series-group m rows (insert r.metric (series r.metric grouped ++ r ∷ []) grouped)
      ∙ rw (series-insert m r.metric (series r.metric grouped ++ r ∷ []) grouped)
          (step (Bool-cases (text_eq r.metric m)))
    where
      step :
          (text_eq r.metric m ≡ true) ⊎ (text_eq r.metric m ≡ false)
          → (if text_eq r.metric m then series r.metric grouped ++ r ∷ [] else series m grouped)
              ++ keep (has_metric m) rows
            ≡ series m grouped ++ keep (has_metric m) (r ∷ rows)
      step (inl same) =
          rw (same, ap (λ t. series t grouped) ((text_eq_iff r.metric m).0 same))
            (append_assoc (series m grouped) (r ∷ []) (keep (has_metric m) rows))
      step (inr other) = rw other refl

  pub keep-append :
      (p : StatsRecord Value → Bool) (xs ys : List (StatsRecord Value))
      → keep p (xs ++ ys) ≡ keep p xs ++ keep p ys
  unfolding keep
  keep-append p [] ys = refl
  keep-append p (x ∷ xs) ys = ground (arith, keep-append p xs ys)

  All-keep :
      (P : StatsRecord Value → Type 0) (p : StatsRecord Value → Bool)
      (rows : List (StatsRecord Value))
      → All P rows
      → All P (keep p rows)
  unfolding keep
  All-keep P p [] h = h
  All-keep P p (r ∷ rows) h = ground (arith, All-keep P p rows h.1)

  pub keep-Ascending :
      (p : StatsRecord Value → Bool) (rows : List (StatsRecord Value))
      → Ascending rows
      → Ascending (keep p rows)
  unfolding keep
  keep-Ascending p [] h = h
  keep-Ascending p (r ∷ rows) h = elim (Bool-cases (p r)) [
    | inl kept ↦
        rw kept (All-keep (λ q. r.timestamp ≤ q.timestamp) p rows h.0, keep-Ascending p rows h.1)
    | inr dropped ↦ rw dropped (keep-Ascending p rows h.1)
  ]

  -- No row is later.
  abbrev pub Until : ℕ → List (StatsRecord Value) → Type 0
  Until n rows = All (λ r. r.timestamp ≤ n) rows

  pub keep-Until :
      (n : ℕ) (p : StatsRecord Value → Bool) (rows : List (StatsRecord Value))
      → Until n rows
      → Until n (keep p rows)
  keep-Until n p rows = All-keep (λ r. r.timestamp ≤ n) p rows

  pub Until-later :
      (n k : ℕ) (rows : List (StatsRecord Value)) → n ≤ k → Until n rows → Until k rows
  Until-later n k [] le h = h
  Until-later n k (r ∷ rows) le h = (omega (arith, h.0), Until-later n k rows le h.1)

  All-same_second :
      (n now : ℕ) (metrics : List (Text × Value))
      → n ≤ stamp now
      → All (λ q. n ≤ q.timestamp) (batch now metrics)
  All-same_second n now [] le = tt
  All-same_second n now (p ∷ metrics) le = (le, All-same_second n now metrics le)

  batch-Ascending : (now : ℕ) (metrics : List (Text × Value)) → Ascending (batch now metrics)
  batch-Ascending now [] = tt
  batch-Ascending now (p ∷ metrics) =
      (All-same_second (stamp now) now metrics (omega arith), batch-Ascending now metrics)

  batch-Until : (now : ℕ) (metrics : List (Text × Value)) → Until (stamp now) (batch now metrics)
  batch-Until now [] = tt
  batch-Until now (p ∷ metrics) = (omega arith, batch-Until now metrics)

  pub append_batch-Until :
      (now : ℕ) (metrics : List (Text × Value)) (rows : List (StatsRecord Value))
      → Until (stamp now) rows
      → Until (stamp now) (rows ++ batch now metrics)
  append_batch-Until now metrics [] h = batch-Until now metrics
  append_batch-Until now metrics (r ∷ rows) h = (h.0, append_batch-Until now metrics rows h.1)

  append_later :
      (n now : ℕ) (metrics : List (Text × Value)) (rows : List (StatsRecord Value))
      → n ≤ stamp now
      → All (λ q. n ≤ q.timestamp) rows
      → All (λ q. n ≤ q.timestamp) (rows ++ batch now metrics)
  append_later n now metrics [] le h = All-same_second n now metrics le
  append_later n now metrics (r ∷ rows) le h = (h.0, append_later n now metrics rows le h.1)

  pub append_batch-Ascending :
      (now : ℕ) (metrics : List (Text × Value)) (rows : List (StatsRecord Value))
      → Ascending rows
      → Until (stamp now) rows
      → Ascending (rows ++ batch now metrics)
  append_batch-Ascending now metrics [] h u = batch-Ascending now metrics
  append_batch-Ascending now metrics (r ∷ rows) h u = (
    append_later r.timestamp now metrics rows u.0 h.0,
    append_batch-Ascending now metrics rows h.1 u.1,
  )

  -- What is pruned is older than every window that starts at the cutoff or later.
  pub prune-since :
      (now retention since : ℕ) (rows : List (StatsRecord Value))
      → now - retention ≤ since
      → keep (is_since since) (prune_stats none now retention rows).1 ≡ keep (is_since since) rows
  unfolding keep prune_stats
  prune-since now retention since [] h = refl
  prune-since now retention since (r ∷ rows) h =
      ground (arith, prune-since now retention since rows h)

  -- The query at one metric, on rows whose times do not go back.
  pub query_all-series :
      (before : Text → Text → Bool) (m : Text) (since : ℕ) (table : List (StatsRecord Value))
      → ((t : Text) → before t t ≡ false)
      → Ascending table
      → (grouped : Assoc Text (List (StatsRecord Value))) × (query_all_stats_since before none since
            table
          ≡ ok grouped)
        × (series m grouped ≡ keep (has_metric m) (keep (is_since since) table))
  unfolding query_all_stats_since series lookup
  query_all-series before m since table irr h =
      let rows = order_by earlier (keep (is_since since) table) in
      let sorted = order_by (λ a b. before a.metric b.metric) rows in
      (
        group sorted [],
        refl,
        series-group m sorted []
            ∙ keep-order_by before irr m rows
            ∙ ap (keep (has_metric m)) (
                order_by-Ascending (keep (is_since since) table)
                  (keep-Ascending (is_since since) table h)),
      )
