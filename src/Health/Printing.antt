-- ===== src/Health/Printing.antt =====
-- types/health.go: the functions that print messages. What `fmt` makes of a status, a score and a
-- number, and `ptypes.TimestampString`, are parameters. `DumpView` and `DumpPanorama` write to a file.
use panorama.Prelude.{
  ℕ, ◌≡◌, refl, ap, ap₂, ◌∙◌, GoString, string_eq, str, Option, none, some, List, [], ◌∷◌, ◌++◌,
  nat_beq, length, arith, if◌then◌else◌,
}
use panorama.Prelude.Map
use panorama.Prelude.Map.{GoMap, Distinct}
use panorama.Prelude.Strings.{
  sort_strings, keys_of, sort_strings-mem, mem-keys_of, keys_of-AllDistinct,
}
use panorama.Timestamp.{Timestamp}
use panorama.Health.{Status, Score, Metric, Observation, View, Inference}

pub record Printer : Type 0 where
  pub status_string : Status → GoString
  pub score_string : Score → GoString
  pub timestamp_string : Timestamp → GoString
  pub int_string : ℕ → GoString

-- The bytes of a tab and of a newline.
abbrev tab : GoString
tab = 9 ∷ []

abbrev newline : GoString
newline = 10 ∷ []

module _ (printer : Printer) where
  abbrev pub metric_string : GoString → Option Metric → GoString
  metric_string key none = []
  metric_string key (some metric) =
      key
      ++ str ": "
      ++ printer.status_string metric.value.status
      ++ str ", "
      ++ printer.score_string metric.value.score
      ++ str "; "

  -- The loop over the sorted keys, all of which the map has.
  unfoldable pub write_metrics : GoMap GoString Metric → List GoString → GoString
  write_metrics metrics [] = []
  write_metrics metrics (key ∷ keys) =
      metric_string key (Map.get key metrics) ++ write_metrics metrics keys

  unfoldable pub metrics_string : GoMap GoString Metric → GoString
  unfolding write_metrics
  metrics_string metrics = write_metrics metrics (sort_strings (keys_of metrics))

  unfoldable pub observation_string : Observation → GoString
  unfolding metrics_string
  observation_string ob =
      if nat_beq (length ob.metrics) 0
      then str "{}"
      else (printer.timestamp_string ob.ts ++ str " {" ++ metrics_string ob.metrics ++ str "}")

  unfoldable pub dump_view : GoString → List Observation → GoString
  unfolding observation_string
  dump_view observer [] = []
  dump_view observer (ob ∷ obs) =
      str "  |"
      ++ observer
      ++ str "| "
      ++ observation_string ob
      ++ newline
      ++ dump_view observer obs

  abbrev pub view_title : GoString → GoString → View → GoString
  view_title subject observer view =
      str "[[... "
      ++ observer
      ++ str "->"
      ++ subject
      ++ str " ("
      ++ printer.int_string (length view.observations)
      ++ str " observations) ...]]"
      ++ newline

  unfoldable pub dump_panorama : GoString → GoMap GoString View → GoString
  unfolding dump_view
  dump_panorama subject [] = []
  dump_panorama subject ((observer, view) ∷ views) =
      view_title subject observer view
      ++ dump_view view.observer view.observations
      ++ dump_panorama subject views

  abbrev pub newline_unless_last : List Observation → GoString
  newline_unless_last [] = []
  newline_unless_last (ob ∷ obs) = newline

  unfoldable pub view_string : GoString → List Observation → GoString
  unfolding observation_string
  view_string observer [] = []
  view_string observer (ob ∷ obs) =
      tab
      ++ str "|"
      ++ observer
      ++ str "| "
      ++ observation_string ob
      ++ newline_unless_last obs
      ++ view_string observer obs

  unfoldable pub panorama_string : GoString → GoMap GoString View → GoString
  unfolding view_string
  panorama_string subject [] = []
  panorama_string subject ((observer, view) ∷ views) =
      newline
      ++ view_title subject observer view
      ++ view_string view.observer view.observations
      ++ panorama_string subject views

  -- `%s` of a slice of strings, without the brackets.
  unfoldable pub spaced : List GoString → GoString
  spaced [] = []
  spaced (s ∷ []) = s
  spaced (s ∷ t ∷ ss) = s ++ str " " ++ spaced (t ∷ ss)

  unfoldable pub inference_string : Inference → GoString
  unfolding spaced observation_string
  inference_string inf =
      str "["
      ++ spaced inf.observers
      ++ str "] ==> "
      ++ inf.subject
      ++ str ": "
      ++ observation_string inf.observation

  write_metrics-same :
      (m n : GoMap GoString Metric) (keys : List GoString)
      → ((k : GoString) → Map.get k m ≡ Map.get k n)
      → write_metrics m keys ≡ write_metrics n keys
  unfolding write_metrics
  write_metrics-same m n [] h = refl
  write_metrics-same m n (key ∷ keys) h =
      ap₂ (λ s t. s ++ t) (ap (metric_string key) (h key)) (write_metrics-same m n keys h)

  -- `MetricsString` does not depend on the order in which `range` visits the metrics: two maps with
  -- the same entries have the same string.
  pub metrics_string-same :
      (m n : GoMap GoString Metric)
      → Distinct m
      → Distinct n
      → ((k : GoString) → Map.get k m ≡ Map.get k n)
      → metrics_string m ≡ metrics_string n
  unfolding metrics_string
  metrics_string-same m n d e h =
      ap (write_metrics m) (
        sort_strings-mem (keys_of m) (keys_of n) (keys_of-AllDistinct m d) (keys_of-AllDistinct n e)
          λ k. ground (arith, mem-keys_of k m, mem-keys_of k n, h k))
      ∙ write_metrics-same m n (sort_strings (keys_of n)) h
