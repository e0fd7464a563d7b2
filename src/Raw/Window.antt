-- ===== src/Raw/Window.antt =====
-- Truncation in `AddReport` of store/raw.go: the ten latest observations stay.
use panorama.Prelude.{◌≡◌, List, [], ◌∷◌, ◌++◌}
use panorama.Prelude.Window.{last, push-last}
use panorama.Health.{Observation}
use panorama.Raw.{max_report_per_view, push_observation}

-- Pushing onto the last ten of a history gives the last ten of the longer history.
pub push_observation-last :
    (history : List Observation) (ob : Observation)
    → push_observation (last max_report_per_view history) ob
      ≡ last max_report_per_view (history ++ ob ∷ [])
unfolding push_observation
push_observation-last history ob = push-last max_report_per_view history ob
