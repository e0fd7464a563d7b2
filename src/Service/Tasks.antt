-- ===== src/Service/Tasks.antt =====
-- What the handlers of service/service.go start: AnalyzeReport, the exchanges, and a round of GC.
use panorama.Prelude.{
  ℕ, GoString, string_eq, nat_eq, Option, none, some, List, [], ◌∷◌, ◌++◌, Bool, false,
  if◌then◌else◌,
}
use panorama.Prelude.Map.{GoMap}
use panorama.Prelude.Int.{ℤ}
use panorama.Timestamp.{Timestamp}
use panorama.Health.{Report}
use panorama.Raw
use panorama.Raw.{RawHealthStorage, Time}
use panorama.Raw.Collect.{gc}
use panorama.Inferences
use panorama.Inferences.{HealthInferenceStorage, InferMap}
use panorama.Cache.{CacheItem, get_list, empty_list}
use panorama.Exchange.{Network, propagate, subscribe, unsubscribe}
use panorama.Service.{HealthGServer, Task, analyze, propagates, subscribes, unsubscribes}

-- The loop of `AnalyzeReport` over the held reports; an error of `AddReport` is only logged.
unfoldable pub add_held : RawHealthStorage → List (CacheItem Report) → Time → RawHealthStorage
add_held storage [] now = storage
add_held storage (item ∷ items) now =
    add_held (Raw.add_report storage item.value false now).0 items now

unfoldable pub release_held : HealthGServer → GoString → Time → HealthGServer
unfolding add_held
release_held s subject now =
    let (items, buffer) = get_list s.hold_buffer subject now in
    elim items [
      | [] ↦ record s { hold_buffer = buffer }
      | item ∷ rest ↦ record s {
        storage = add_held s.storage (item ∷ rest) now;
        hold_buffer = empty_list buffer subject;
        tasks = s.tasks ++ subscribes subject ∷ [];
      }
    ]

-- None while the channel of the inference service is full.
unfoldable pub analyze_report : HealthGServer → Report → Bool → Time → Option HealthGServer
unfolding release_held
analyze_report s report check_hold now =
    let s' = if check_hold then release_held s report.subject now else s in
    elim (Inferences.infer_report_async s'.inference report) [
      | none ↦ none
      | some inference ↦ some (record s' { inference = inference })
    ]

unfoldable pub run_task : Network → HealthGServer → Task → Time → Option HealthGServer
unfolding analyze_report
run_task net s (analyze report check_hold) now = analyze_report s report check_hold now
run_task net s (propagates report) now =
    some (record s { exchange = (propagate net s.exchange report).1 })
run_task net s (subscribes subject) now =
    some (record s { exchange = (subscribe net s.exchange subject).1 })
run_task net s (unsubscribes subject) now =
    some (record s { exchange = (unsubscribe net s.exchange subject).1 })

-- The subjects of the retired observations are sent for inference; none while the channel is full.
unfoldable pub infer_retired :
    HealthInferenceStorage → GoMap GoString ℕ → Option HealthInferenceStorage
infer_retired inference [] = some inference
infer_retired inference ((subject, r) ∷ retired) =
    elim (Inferences.infer_subject_async inference subject) [
      | none ↦ none
      | some inference' ↦ infer_retired inference' retired
    ]

-- A round of the loop of `GC`: none for a panic of the collection, or while a channel is full.
unfoldable pub collect : HealthGServer → ℤ → Bool → Option Timestamp → Option HealthGServer
unfolding infer_retired
collect s gc_threshold gc_relative expire = elim (gc s.storage gc_threshold gc_relative expire) [
  | none ↦ none
  | some (storage, none) ↦ some (record s { storage = storage })
  | some (storage, some retired) ↦ elim (infer_retired s.inference retired) [
    | none ↦ none
    | some inference ↦ some (record s { storage = storage; inference = inference })
  ]
]
