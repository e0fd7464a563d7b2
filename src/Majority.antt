-- ===== src/Majority.antt =====
-- `InferView` of decision/majority.go. Float arithmetic is a parameter, over bit patterns.
pub mod Views
pub mod Pano
pub mod Tallies
pub mod Votes
use panorama.Prelude.{
  ℕ, zero, suc, ◌+◌, ◌%◌, ◌==◌, GoString, string_eq, Option, none, some, List, [], ◌∷◌, Bool, true,
  false, ◌&&◌, ◌||◌, not, ltb, leb, nat_beq, length, set, replicate, if◌then◌else◌,
}
use panorama.Prelude.Map
use panorama.Prelude.Map.{GoMap}
use panorama.Prelude.Int.{pos, ltb_ℤ}
use panorama.Timestamp.{Timestamp, compare_timestamp}
use panorama.Health.{
  Status, healthy, pending, number, status_beq, status_eq, Score, Value, Metric, Observation, View,
  Panorama, Inference, last_ts,
}

-- Go's float32: addition, division, and the conversion from uint32.
pub record FloatOps : Type 0 where
  pub zero_score : Score
  pub add : Score → Score → Score
  pub div : Score → Score → Score
  pub of_count : ℕ → Score

abbrev pub view_metric_history_size : ℕ
view_metric_history_size = 2

pub record AggCnt : Type 0 where
  pub cnt : ℕ
  pub stop : Bool

-- An entry of `metrics` in `InferView` points into an observation of the view: `from` is the
-- index of that observation, and `metric` what the shared object holds.
pub record Slot : Type 0 where
  pub metric : Metric
  pub from : ℕ

pub record Work : Type 0 where
  pub metrics : GoMap GoString Slot
  pub aggs : GoMap GoString AggCnt

module _ (ops : FloatOps) where
  -- m1.Value.Score += metric.Value.Score
  unfoldable pub accumulate : Slot → Metric → Slot
  accumulate m1 metric = record m1 {
    metric = record m1.metric {
      value = record m1.metric.value { score = ops.add m1.metric.value.score metric.value.score };
    };
  }

  -- The branch for a metric that a newer observation has too.
  unfoldable pub merge : GoString → Metric → AggCnt → Slot → Work → Work
  unfolding accumulate
  merge name metric agg m1 w =
      if status_beq metric.value.status pending && status_beq m1.metric.value.status healthy
      then w
      else if not (status_beq m1.metric.value.status metric.value.status)
      then record w { aggs = Map.put name (record agg { stop = true }) w.aggs }
      else record {
        metrics = Map.put name (accumulate m1 metric) w.metrics;
        aggs = Map.put name (record agg { cnt = agg.cnt + 1 }) w.aggs;
      }

  -- The body of the inner loop of `InferView`, at observation `i`.
  unfoldable pub visit : ℕ → GoString → Metric → Work → Work
  unfolding merge
  visit i name metric w = elim (Map.get name w.aggs) [
    | none ↦ record {
      metrics = Map.put name (record { metric = metric; from = i }) w.metrics;
      aggs = Map.put name (record { cnt = 1; stop = false }) w.aggs;
    }
    | some agg ↦
        if agg.stop || leb view_metric_history_size agg.cnt
        then w
        else elim (Map.get name w.metrics) [ none ↦ w | some m1 ↦ merge name metric agg m1 w ]
  ]

  unfoldable pub visit_all : ℕ → GoMap GoString Metric → Work → Work
  visit_all i [] w = w
  visit_all i ((name, metric) ∷ metrics) w = visit_all i metrics (visit i name metric w)

  -- `for ; i >= 0; i--`: the observations from index `i` on, the last one first.
  unfoldable pub scan : ℕ → List Observation → Work → Work
  scan i [] w = w
  scan i (val ∷ obs) w = visit_all i val.metrics (scan (suc i) obs w)

  -- metric.Value.Score / float32(aggs[name].cnt), if it is above 1
  unfoldable pub average : Option AggCnt → Slot → Slot
  average none slot = slot
  average (some agg) slot =
      if ltb 1 agg.cnt
      then record slot {
        metric = record slot.metric {
          value = record slot.metric.value {
            score = ops.div slot.metric.value.score (ops.of_count agg.cnt);
          };
        };
      }
      else slot

-- The observation at index `i` with what the shared metric objects hold.
unfoldable pub written : GoMap GoString Slot → ℕ → GoString → Metric → Metric
written slots i name metric = elim (Map.get name slots) [
  | none ↦ metric
  | some slot ↦ if nat_beq slot.from i then slot.metric else metric
]

unfoldable pub write_back : GoMap GoString Slot → ℕ → List Observation → List Observation
write_back slots i [] = []
write_back slots i (val ∷ obs) =
    record val { metrics = Map.update_all (written slots i) val.metrics }
    ∷ write_back slots (suc i) obs

module _ (ops : FloatOps) where
  -- The metrics of the summary, still shared with the view.
  unfoldable pub summary_slots : List Observation → GoMap GoString Slot
  summary_slots obs =
      let w = scan ops 0 obs (record { metrics = []; aggs = [] }) in
      Map.update_all (λ name slot. average ops (Map.get name w.aggs) slot) w.metrics

  -- The inference, and the view whose metric objects the loops have changed; none for an empty view.
  unfoldable pub infer_observations :
      GoString → GoString → List Observation → Option (Inference × List Observation)
  infer_observations subject observer [] = none
  infer_observations subject observer (val ∷ obs) =
      let slots = summary_slots (val ∷ obs) in
      some (
        record {
          subject = subject;
          observers = observer ∷ [];
          observation = record {
            ts = last_ts val.ts obs;
            metrics = Map.update_all (λ name slot. slot.metric) slots;
          };
        },
        write_back slots 0 (val ∷ obs),
      )

  unfoldable pub infer_view : View → Option (Inference × View)
  unfolding infer_observations
  infer_view view = elim (infer_observations view.subject view.observer view.observations) [
    | none ↦ none
    | some (inference, obs) ↦ some (inference, record view { observations = obs })
  ]
