-- ===== src/Tests/Decisions.antt =====
-- The theorems about decision/majority.go and types/health.go at concrete inputs.
use panorama.Prelude.{
  ◌≡◌, ◌↔◌, refl, GoString, string_eq, str, str_beq, none, some, List, [], ◌∷◌, arith,
}
use panorama.Prelude.Map
use panorama.Prelude.Map.{GoMap}
use panorama.Prelude.Int.{◌-ℤ◌}
use panorama.Timestamp.{compare_timestamp, subtract_timestamp, instant}
use panorama.Timestamp.Order.{subtract_timestamp-instant}
use panorama.Health.{
  healthy, maybe_unhealthy, dead, number, status_beq, status_eq, Inference, Observation,
  status_from_full_str, to_lower, last_ts,
}
use panorama.Health.Names.{full_name, status_from_full_str_iff}
use panorama.Majority
use panorama.Majority.Pano
use panorama.Majority.Views.{history, summarise, get-infer_observations}
use panorama.Majority.Votes.{
  consulted, ballots, Decided, infer_pano-Decided, infer_pano-none_iff, IsSilent,
}
use panorama.Tests.{ts_at, observed_at, two_views, whole_ops}

-- The second observer's inference is in the workbook, with another status than its view.
abbrev book : GoMap GoString Inference
book =
    (
      str "b",
      record {
        subject = str "node";
        observers = str "b" ∷ [];
        observation = observed_at 9 dead 70;
      },
    )
    ∷ []

abbrev decided_node : Inference
decided_node = record {
  subject = str "node";
  observers = str "a" ∷ str "b" ∷ [];
  observation = observed_at 9 dead 42;
}

infer_pano-Decided_example :
    Decided whole_ops
      (str "cpu")
      (ballots whole_ops (str "cpu") (consulted whole_ops two_views.views book))
      (Map.get (str "cpu") decided_node.observation.metrics)
unfolding consulted ballots Map.get Map.put Map.update_all Majority.infer_view
    Majority.infer_observations Majority.summary_slots Majority.scan Majority.visit_all
    Majority.visit Majority.merge Majority.accumulate Majority.average Pano.infer_pano
    Pano.pano_loop Pano.pano_body Pano.absorb Pano.tally Pano.add_vote Pano.decide_metric Pano.pick
    number status_beq last_ts str_beq compare_timestamp
infer_pano-Decided_example =
    infer_pano-Decided whole_ops two_views book decided_node (str "cpu") (refl, (refl, tt))
      ((refl, tt), ((refl, tt), tt)) (omega arith) refl

infer_pano-none_iff_example :
    ((Pano.infer_pano whole_ops two_views []).0 ≡ none) ↔ IsSilent whole_ops [] two_views.views
unfolding Map.get str_beq
infer_pano-none_iff_example = infer_pano-none_iff whole_ops two_views [] (refl, (refl, tt))

get-infer_observations_example :
    (inference : Inference) × (changed : List Observation) × (Majority.infer_observations whole_ops
        (str "node")
        (str "a")
        (observed_at 1 healthy 10 ∷ observed_at 2 healthy 20 ∷ [])
      ≡ some (inference, changed))
    × (Map.get (str "cpu") inference.observation.metrics
        ≡ summarise whole_ops (
            history whole_ops
              (str "cpu")
              (observed_at 1 healthy 10 ∷ observed_at 2 healthy 20 ∷ [])))
unfolding Map.get
get-infer_observations_example =
    get-infer_observations whole_ops (str "node") (str "a") (observed_at 1 healthy 10)
      (observed_at 2 healthy 20 ∷ []) (str "cpu") ((refl, tt), ((refl, tt), tt))

subtract_timestamp-instant_example :
    subtract_timestamp (ts_at 1) (ts_at 2) ≡ instant (ts_at 1) -ℤ instant (ts_at 2)
unfolding ◌-ℤ◌
subtract_timestamp-instant_example =
    subtract_timestamp-instant (ts_at 1) (ts_at 2)
      (record { low = omega arith; high = omega arith; whole = omega arith; below = omega arith })
      (record { low = omega arith; high = omega arith; whole = omega arith; below = omega arith })
      (omega arith) (omega arith)

status_from_full_str_iff_example :
    (status_from_full_str (str "MayBe_Unhealthy") ≡ maybe_unhealthy)
    ↔ (to_lower (str "MayBe_Unhealthy") ≡ full_name maybe_unhealthy)
status_from_full_str_iff_example =
    status_from_full_str_iff (str "MayBe_Unhealthy") maybe_unhealthy (λ e. ground (arith, e))
