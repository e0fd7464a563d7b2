-- ===== src/Tests.antt =====
-- Concrete inputs, at which the theorems about each part of the program are applied.
pub mod Stores
pub mod Decisions
pub mod Services
pub mod Filters
pub mod Logs
pub mod Tools
use panorama.Prelude.{ℕ, ◌+◌, ◌/◌, GoString, str, [], ◌∷◌, List}
use panorama.Prelude.Int.{pos}
use panorama.Timestamp.{Timestamp}
use panorama.Health.{Status, healthy, unhealthy, Metric, Observation, Report, View, Panorama}
use panorama.Majority.{FloatOps}

abbrev pub ts_at : ℕ → Timestamp
ts_at n = record { seconds = pos n; nanos = pos 7 }

abbrev pub metric_of : Status → ℕ → Metric
metric_of status score = record {
  name = str "cpu";
  value = record { status = status; score = score };
}

abbrev pub observed_at : ℕ → Status → ℕ → Observation
observed_at n status score = record {
  ts = ts_at n;
  metrics = (str "cpu", metric_of status score) ∷ [];
}

abbrev pub report_by : GoString → Report
report_by observer = record {
  observer = observer;
  subject = str "node";
  observation = observed_at 5 unhealthy 30;
}

abbrev pub view_by : GoString → List Observation → View
view_by observer observations = record {
  observer = observer;
  subject = str "node";
  observations = observations;
}

-- Two observers, of which the first has two observations.
abbrev pub two_views : Panorama
two_views = record {
  subject = str "node";
  views =
      (str "a", view_by (str "a") (observed_at 1 healthy 10 ∷ observed_at 2 healthy 20 ∷ []))
      ∷ (str "b", view_by (str "b") (observed_at 3 unhealthy 40 ∷ []))
      ∷ [];
}

-- Scores whose bit patterns are read as whole numbers.
abbrev pub whole_ops : FloatOps
whole_ops = record { zero_score = 0; add = λ a b. a + b; div = λ a b. a / b; of_count = λ n. n }
