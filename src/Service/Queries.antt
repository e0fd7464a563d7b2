-- ===== src/Service/Queries.antt =====
-- The handlers of service/service.go that only read.
use panorama.Prelude.{
  GoString, string_eq, Option, none, some, List, [], ◌∷◌, Bool, true, false, map,
}
use panorama.Prelude.Map
use panorama.Prelude.Map.{GoMap}
use panorama.Timestamp.{Timestamp}
use panorama.Health.{Report, View, Panorama, Inference}
use panorama.Raw
use panorama.Raw.{RawHealthStorage, Time}
use panorama.Inferences
use panorama.Inferences.{HealthInferenceStorage, InferMap}
use panorama.Exchange.{Peer}
use panorama.Service.{HealthGServer}

unfoldable pub get_latest_report : HealthGServer → GoString → Option Report
get_latest_report s subject = Raw.get_latest_report s.storage subject

unfoldable pub get_panorama : HealthGServer → GoString → Option Panorama
get_panorama s subject = Raw.get_panorama s.storage subject

-- The request names a subject and an observer.
unfoldable pub get_view : HealthGServer → GoString → GoString → Option View
get_view s subject observer = Raw.get_view s.storage subject observer

unfoldable pub get_inference : HealthGServer → GoString → Option Inference
get_inference s subject = Inferences.get_inference s.inference subject

-- `ptypes.TimestampProto` is an argument; one error makes the whole reply an error.
unfoldable pub subjects_reply :
    (Time → Option Timestamp)
    → GoMap GoString Time
    → GoMap GoString Timestamp
    → Option (GoMap GoString Timestamp)
subjects_reply proto [] result = some result
subjects_reply proto ((subject, ts) ∷ watched) result = elim (proto ts) [
  | none ↦ none
  | some pts ↦ subjects_reply proto watched (Map.put subject pts result)
]

unfoldable pub get_observed_subjects :
    (Time → Option Timestamp) → HealthGServer → Option (GoMap GoString Timestamp)
unfolding subjects_reply
get_observed_subjects proto s = subjects_reply proto (Raw.get_subjects s.storage) []

unfoldable pub dump_panorama : HealthGServer → GoMap GoString Panorama
dump_panorama s = Raw.dump_panorama s.storage

unfoldable pub dump_inference : HealthGServer → InferMap
dump_inference s = Inferences.dump_inference s.inference

unfoldable pub get_peers : HealthGServer → List Peer
get_peers s = map (λ e. record { id = e.0; addr = e.1 }) s.config.peers

unfoldable pub get_id : HealthGServer → Peer
get_id s = record { id = s.config.id; addr = s.config.addr }

-- `Ping`: whether the request's time can be converted, and the time of now if it can be.
unfoldable pub answer_ping : Bool → Option Timestamp → Option Timestamp
answer_ping false pnow = none
answer_ping true pnow = pnow
