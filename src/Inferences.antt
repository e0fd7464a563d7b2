-- ===== src/Inferences.antt =====
-- store/inference.go: the results of inference and the workbooks that they are made from. A method
-- runs atomically. The raw storage, which the code shares by a pointer, is passed and returned.
pub mod Results
pub mod Bounded
pub mod Served
pub mod Answered
use panorama.Prelude.{
  ℕ, ◌==◌, GoString, string_eq, Option, none, some, List, [], ◌∷◌, ◌++◌, Bool, true, false, not,
  ltb, nat_beq, length, if◌then◌else◌,
}
use panorama.Prelude.Map
use panorama.Prelude.Map.{GoMap}
use panorama.Prelude.Int.{pos}
use panorama.Health.{Observation, Report, Panorama, Inference}
use panorama.Raw.{RawHealthStorage, get_panorama}
use panorama.Majority.{FloatOps}
use panorama.Majority.Pano.{infer_pano}

abbrev pub InferMap : Type 0
InferMap = GoMap GoString Inference

-- `report_ch` and `subject_ch` are the buffered channels, oldest message first; `has_db` says
-- whether `db` is set, and `db_inferences` lists what was handed to `InsertInference`, newest first.
pub record HealthInferenceStorage : Type 0 where
  pub results : InferMap
  pub workbooks : GoMap GoString InferMap
  pub report_ch : List Report
  pub subject_ch : List GoString
  pub has_db : Bool
  pub db_inferences : List Inference
  pub alive : Bool

abbrev pub channel_size : ℕ
channel_size = 50

unfoldable pub new_health_inference_storage : HealthInferenceStorage
new_health_inference_storage = record {
  results = [];
  workbooks = [];
  report_ch = [];
  subject_ch = [];
  has_db = false;
  db_inferences = [];
  alive = true;
}

-- A send blocks while the channel is full: none.
unfoldable pub infer_subject_async :
    HealthInferenceStorage → GoString → Option HealthInferenceStorage
infer_subject_async s subject =
    if ltb (length s.subject_ch) channel_size
    then some (record s { subject_ch = s.subject_ch ++ subject ∷ [] })
    else none

unfoldable pub infer_report_async : HealthInferenceStorage → Report → Option HealthInferenceStorage
infer_report_async s report =
    if ltb (length s.report_ch) channel_size
    then some (record s { report_ch = s.report_ch ++ report ∷ [] })
    else none

-- delete(self.Workbooks, subject); delete(self.Results, subject)
unfoldable pub reset : HealthInferenceStorage → GoString → HealthInferenceStorage
reset s subject = record s {
  workbooks = Map.delete subject s.workbooks;
  results = Map.delete subject s.results;
}

-- The inference or an error, and the two storages afterwards.
abbrev pub Outcome : Type 0
Outcome = Option Inference × RawHealthStorage × HealthInferenceStorage

-- The panorama's metric objects are shared with the raw storage.
unfoldable pub put_panorama : RawHealthStorage → GoString → Panorama → RawHealthStorage
put_panorama raw subject pano = record raw { tenants = Map.put subject pano raw.tenants }

unfoldable pub get_inference : HealthInferenceStorage → GoString → Option Inference
get_inference s subject = Map.get subject s.results

unfoldable pub dump_inference : HealthInferenceStorage → InferMap
dump_inference s = s.results

unfoldable pub set_db : HealthInferenceStorage → HealthInferenceStorage
set_db s = record s { has_db = true }

-- go self.db.InsertInference(inf)
unfoldable pub store_inference : Outcome → RawHealthStorage × HealthInferenceStorage
store_inference (none, raw, s) = (raw, s)
store_inference (some inference, raw, s) =
    (raw, if s.has_db then record s { db_inferences = inference ∷ s.db_inferences } else s)

-- The workbook of `InferReport`: the subject's, without the entry of the report's observer.
unfoldable pub report_workbook : HealthInferenceStorage → Report → InferMap
report_workbook s report = elim (Map.get report.subject s.workbooks) [
  | none ↦ []
  | some workbook ↦ Map.delete report.observer workbook
]

module _ (ops : FloatOps) where
  -- From the call of `InferPano` to the end, with the workbook that the code chose.
  unfoldable pub infer_with :
      RawHealthStorage → HealthInferenceStorage → GoString → Panorama → InferMap → Outcome
  unfolding put_panorama reset
  infer_with raw s subject pano workbook =
      let (found, workbook', pano') = infer_pano ops pano workbook in
      let noted = record s { workbooks = Map.put subject workbook' s.workbooks } in
      elim found [
        | none ↦ (none, put_panorama raw subject pano', reset noted subject)
        | some inference ↦ (
          some inference,
          put_panorama raw subject pano',
          record noted { results = Map.put subject inference s.results },
        )
      ]

  unfoldable pub infer_subject : RawHealthStorage → HealthInferenceStorage → GoString → Outcome
  unfolding infer_with
  infer_subject raw s subject = elim (get_panorama raw subject) [
    | none ↦ (none, raw, reset s subject)
    | some pano ↦ infer_with raw s subject pano []
  ]

  unfoldable pub infer_report : RawHealthStorage → HealthInferenceStorage → Report → Outcome
  unfolding infer_with report_workbook
  infer_report raw s report = elim (get_panorama raw report.subject) [
    | none ↦ (none, raw, reset s report.subject)
    | some pano ↦ infer_with raw s report.subject pano (report_workbook s report)
  ]

  unfoldable pub serve_subject :
      GoString
      → RawHealthStorage
      → HealthInferenceStorage
      → RawHealthStorage × HealthInferenceStorage
  unfolding store_inference
  serve_subject subject raw s = store_inference (infer_subject raw s subject)

  -- A report with an empty subject, such as the one of `Stop`, is passed over.
  unfoldable pub serve_report :
      Report → RawHealthStorage → HealthInferenceStorage → RawHealthStorage × HealthInferenceStorage
  unfolding store_inference
  serve_report report raw s =
      if nat_beq (length report.subject) 0
      then (raw, s)
      else store_inference (infer_report raw s report)

  -- Receiving from a channel; an empty one leaves everything as it is.
  unfoldable pub receive_subject :
      List GoString
      → RawHealthStorage
      → HealthInferenceStorage
      → RawHealthStorage × HealthInferenceStorage
  unfolding serve_subject
  receive_subject [] raw s = (raw, s)
  receive_subject (subject ∷ rest) raw s =
      serve_subject subject raw (record s { subject_ch = rest })

  unfoldable pub receive_report :
      List Report
      → RawHealthStorage
      → HealthInferenceStorage
      → RawHealthStorage × HealthInferenceStorage
  unfolding serve_report
  receive_report [] raw s = (raw, s)
  receive_report (report ∷ rest) raw s = serve_report report raw (record s { report_ch = rest })

  -- One turn of the loop of `Start`, while it runs; `from_subjects` is the choice of `select`.
  unfoldable pub turn :
      Bool → RawHealthStorage → HealthInferenceStorage → RawHealthStorage × HealthInferenceStorage
  unfolding receive_subject receive_report
  turn from_subjects raw s =
      if not s.alive
      then (raw, s)
      else if from_subjects
      then receive_subject s.subject_ch raw s
      else receive_report s.report_ch raw s

-- The zero report that `Stop` sends, if the channel has room.
abbrev pub empty_report : Report
empty_report = record {
  observer = [];
  subject = [];
  observation = record { ts = record { seconds = pos 0; nanos = pos 0 }; metrics = [] };
}

unfoldable pub stop : HealthInferenceStorage → HealthInferenceStorage
stop s =
    if ltb (length s.report_ch) channel_size
    then record s { alive = false; report_ch = s.report_ch ++ empty_report ∷ [] }
    else record s { alive = false }
