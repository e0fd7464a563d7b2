-- ===== src/Inferences/Results.antt =====
-- `InferSubject`, `InferReport` and `GetInference` of store/inference.go.
use panorama.Prelude.{
  ◌≡◌, ◌==◌, [], ◌∷◌, List, nat_beq, length, not, GoString, string_eq, none, some, Bool, true,
  false, arith, if◌then◌else◌, Option-cases, inl, inr,
}
use panorama.Prelude.Map
use panorama.Prelude.Map.{get-put, get-delete}
use panorama.Health.{Report, Panorama}
use panorama.Majority.{FloatOps}
use panorama.Majority.Pano.{infer_pano}
use panorama.Raw.{RawHealthStorage, get_panorama}
use panorama.Inferences.{
  HealthInferenceStorage, InferMap, Outcome, reset, infer_with, infer_subject, infer_report,
  report_workbook, store_inference, receive_subject, receive_report, turn,
}

-- A subject has a result exactly if it has a workbook.
abbrev pub IsPaired : HealthInferenceStorage → Type 0
IsPaired s = (x : GoString) → Map.has x s.results ≡ Map.has x s.workbooks

-- What a run of inference about `subject` leaves: for the subject what it returned, and for every
-- other subject the result of before.
abbrev pub Answers : HealthInferenceStorage → GoString → Outcome → Type 0
Answers s subject (found, raw', s') =
    (x : GoString) → Map.get x s'.results ≡ (if subject == x then found else Map.get x s.results)

module _ (ops : FloatOps) where
  reset-Answers :
      (raw : RawHealthStorage) (s : HealthInferenceStorage) (subject : GoString)
      → Answers s subject (none, raw, reset s subject)
  unfolding reset
  reset-Answers raw s subject x = get-delete subject x s.results

  infer_with-Answers :
      (raw : RawHealthStorage) (s : HealthInferenceStorage) (subject : GoString) (pano : Panorama)
      (workbook : InferMap)
      → Answers s subject (infer_with ops raw s subject pano workbook)
  unfolding infer_with
  infer_with-Answers raw s subject pano workbook =
      elim (Option-cases (infer_pano ops pano workbook).0) [
        | inl e ↦ rw (infer_with, e) (λ x. get-delete subject x s.results)
        | inr (inference, e) ↦ rw (infer_with, e) (λ x. get-put subject x inference s.results)
      ]

  -- After `InferSubject` the subject's result is what it returned, and no result if it returned an
  -- error; the results of the other subjects stay.
  pub infer_subject-Answers :
      (raw : RawHealthStorage) (s : HealthInferenceStorage) (subject : GoString)
      → Answers s subject (infer_subject ops raw s subject)
  unfolding infer_subject
  infer_subject-Answers raw s subject = elim (Option-cases (get_panorama raw subject)) [
    | inl e ↦ rw (infer_subject, e) (reset-Answers raw s subject)
    | inr (pano, e) ↦ rw (infer_subject, e) (infer_with-Answers raw s subject pano [])
  ]

  -- After `InferReport` the result of the report's subject is what it returned, and no result if it
  -- returned an error; the results of the other subjects stay.
  pub infer_report-Answers :
      (raw : RawHealthStorage) (s : HealthInferenceStorage) (report : Report)
      → Answers s report.subject (infer_report ops raw s report)
  unfolding infer_report
  infer_report-Answers raw s report = elim (Option-cases (get_panorama raw report.subject)) [
    | inl e ↦ rw (infer_report, e) (reset-Answers raw s report.subject)
    | inr (pano, e) ↦
        rw (infer_report, e)
          (infer_with-Answers raw s report.subject pano (report_workbook s report))
  ]

  infer_with-IsPaired :
      (raw : RawHealthStorage) (s : HealthInferenceStorage) (subject : GoString) (pano : Panorama)
      (workbook : InferMap)
      → IsPaired s
      → IsPaired (infer_with ops raw s subject pano workbook).2
  unfolding infer_with
  infer_with-IsPaired raw s subject pano workbook h x =
      let w = (infer_pano ops pano workbook).1 in
      elim (Option-cases (infer_pano ops pano workbook).0) [
        | inl e ↦
            rw (infer_with, e)
              (ground (
                arith,
                h x,
                get-delete subject x s.results,
                get-delete subject x (Map.put subject w s.workbooks),
                get-put subject x w s.workbooks,
              ))
        | inr (inference, e) ↦
            rw (infer_with, e)
              (ground (
                arith,
                h x,
                get-put subject x inference s.results,
                get-put subject x w s.workbooks,
              ))
      ]

  reset-IsPaired :
      (s : HealthInferenceStorage) (subject : GoString) → IsPaired s → IsPaired (reset s subject)
  unfolding reset
  reset-IsPaired s subject h x =
      ground (arith, h x, get-delete subject x s.results, get-delete subject x s.workbooks)

  infer_subject-IsPaired :
      (raw : RawHealthStorage) (s : HealthInferenceStorage) (subject : GoString)
      → IsPaired s
      → IsPaired (infer_subject ops raw s subject).2
  unfolding infer_subject
  infer_subject-IsPaired raw s subject h = elim (Option-cases (get_panorama raw subject)) [
    | inl e ↦ rw (infer_subject, e) (reset-IsPaired s subject h)
    | inr (pano, e) ↦ rw (infer_subject, e) (infer_with-IsPaired raw s subject pano [] h)
  ]

  infer_report-IsPaired :
      (raw : RawHealthStorage) (s : HealthInferenceStorage) (report : Report)
      → IsPaired s
      → IsPaired (infer_report ops raw s report).2
  unfolding infer_report
  infer_report-IsPaired raw s report h = elim (Option-cases (get_panorama raw report.subject)) [
    | inl e ↦ rw (infer_report, e) (reset-IsPaired s report.subject h)
    | inr (pano, e) ↦
        rw (infer_report, e)
          (infer_with-IsPaired raw s report.subject pano (report_workbook s report) h)
  ]

  store-IsPaired : (o : Outcome) → IsPaired o.2 → IsPaired (store_inference o).1
  unfolding store_inference
  store-IsPaired (none, raw, s) h = h
  store-IsPaired (some inference, raw, s) h = λ x. ground (arith, h x)

  if-IsPaired :
      (b : Bool) (p q : RawHealthStorage × HealthInferenceStorage)
      → IsPaired p.1
      → IsPaired q.1
      → IsPaired (if b then p else q).1
  if-IsPaired true p q h k = h
  if-IsPaired false p q h k = k

  receive_subject-IsPaired :
      (ch : List GoString) (raw : RawHealthStorage) (s : HealthInferenceStorage)
      → IsPaired s
      → IsPaired (receive_subject ops ch raw s).1
  unfolding receive_subject
  receive_subject-IsPaired [] raw s h = h
  receive_subject-IsPaired (subject ∷ rest) raw s h =
      store-IsPaired (infer_subject ops raw _ subject)
        (infer_subject-IsPaired raw (record s { subject_ch = rest }) subject h)

  receive_report-IsPaired :
      (ch : List Report) (raw : RawHealthStorage) (s : HealthInferenceStorage)
      → IsPaired s
      → IsPaired (receive_report ops ch raw s).1
  unfolding receive_report
  receive_report-IsPaired [] raw s h = h
  receive_report-IsPaired (report ∷ rest) raw s h =
      if-IsPaired (nat_beq (length report.subject) 0) _ _ h (
        store-IsPaired (infer_report ops raw _ report)
          (infer_report-IsPaired raw (record s { report_ch = rest }) report h))

  -- Every turn of the inference loop keeps the results and the workbooks in step.
  pub turn-IsPaired :
      (from_subjects : Bool) (raw : RawHealthStorage) (s : HealthInferenceStorage)
      → IsPaired s
      → IsPaired (turn ops from_subjects raw s).1
  unfolding turn
  turn-IsPaired from_subjects raw s h = if-IsPaired (not s.alive) _ _ h (
      if-IsPaired from_subjects _ _ (receive_subject-IsPaired s.subject_ch raw s h)
        (receive_report-IsPaired s.report_ch raw s h))
