-- ===== src/Health/Metrics.antt =====
-- Reading back what `SetMetric`, `AddMetric` and `NewReport` of types/health.go wrote.
use panorama.Prelude.{
  ◌≡◌, refl, Option, none, some, ◌==◌, GoString, string_eq, str_beq_iff, is_some, arith,
  if◌then◌else◌, Option-cases, inl, inr,
}
use panorama.Prelude.Map
use panorama.Prelude.Map.{GoMap, get-put, Distinct}
use panorama.Health.{Status, Score, Metric, Observation, set_metric, get_metric, add_metric}

-- The metric with another value, and the metric that `AddMetric` makes where there is none.
abbrev pub with_value : Option Metric → Status → Score → Option Metric
with_value none status score = none
with_value (some metric) status score =
    some (record metric { value = record { status = status; score = score } })

abbrev pub or_new : GoString → Option Metric → Metric
or_new name none = record { name = name; value = record { status = Status.invalid; score = 0 } }
or_new name (some metric) = metric

module _ (o : Observation) (name : GoString) (status : Status) (score : Score) where
  -- `SetMetric` answers whether the metric is there; if so that metric alone gets the value, and
  -- if not the observation stays as it is.
  pub get_metric-set_metric :
      ((set_metric o name status score).1 ≡ is_some (get_metric o name))
      × ((other : GoString)
          → get_metric (set_metric o name status score).0 other ≡ (
              if name == other
              then with_value (get_metric o name) status score
              else get_metric o other))
  unfolding set_metric get_metric
  get_metric-set_metric = elim (Option-cases (Map.get name o.metrics)) [
    | inl e ↦ rw (e, set_metric) (refl, λ other. ground (arith, str_beq_iff name other))
    | inr (m, e) ↦ rw (e, set_metric) (refl, λ other. get-put name other _ o.metrics)
  ]

  -- After `AddMetric` the metric has the value, under the name that it had or the given one, and
  -- every other metric is as before.
  pub get_metric-add_metric :
      (other : GoString)
      → get_metric (add_metric o name status score) other ≡ (
          if name == other
          then with_value (some (or_new name (get_metric o name))) status score
          else get_metric o other)
  unfolding add_metric get_metric
  get_metric-add_metric other = elim (Option-cases (Map.get name o.metrics)) [
    | inl e ↦ rw (e, add_metric) (get-put name other _ o.metrics)
    | inr (m, e) ↦ rw (e, add_metric) (get-put name other _ o.metrics)
  ]
