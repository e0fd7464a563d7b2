-- ===== src/Inferences/Bounded.antt =====
-- Inference changes metric objects of the raw store, and no number of observations.
use panorama.Prelude.{
  ℕ, suc, ◌≡◌, refl, GoString, string_eq, none, some, List, [], ◌∷◌, Bool, true, false, not, length,
  nat_beq, arith, if◌then◌else◌, Option-cases, inl, inr,
}
use panorama.Prelude.Map
use panorama.Prelude.Map.{GoMap, AllValues, get-AllValues, put-AllValues, put-Distinct}
use panorama.Health.{Observation, Report, View, Panorama, Inference}
use panorama.Majority.{FloatOps, Slot, write_back, summary_slots, infer_observations, infer_view}
use panorama.Majority.Pano.{PanoLoop, absorb, pano_body, pano_loop, infer_pano}
use panorama.Raw.{RawHealthStorage, get_panorama}
use panorama.Raw.Bounded.{IsBounded, IsBoundedView, IsBoundedPanorama}
use panorama.Inferences.{
  HealthInferenceStorage, InferMap, Outcome, infer_with, infer_subject, infer_report,
  report_workbook, put_panorama, store_inference, receive_subject, receive_report, turn,
}

length-write_back :
    (slots : GoMap GoString Slot) (i : ℕ) (obs : List Observation)
    → length (write_back slots i obs) ≡ length obs
unfolding write_back
length-write_back slots i [] = refl
length-write_back slots i (val ∷ obs) = omega (arith, length-write_back slots (suc i) obs)

module _ (ops : FloatOps) where
  infer_view-IsBounded :
      (view changed : View) (inference : Inference)
      → IsBoundedView view
      → infer_view ops view ≡ some (inference, changed)
      → IsBoundedView changed
  unfolding infer_view infer_observations
  infer_view-IsBounded view changed inference h e = go view.observations refl
    where
      go : (obs : List Observation) → view.observations ≡ obs → IsBoundedView changed
      go [] f = ground (arith, e, f)
      go (val ∷ obs) f =
          ground (arith, e, f, length-write_back (summary_slots ops (val ∷ obs)) 0 (val ∷ obs))

  pano_body-IsBounded :
      (observer : GoString) (view : View) (l : PanoLoop)
      → IsBoundedView view
      → AllValues IsBoundedView l.views
      → AllValues IsBoundedView (pano_body ops observer view l).views
  unfolding pano_body absorb
  pano_body-IsBounded observer view l b h = elim (Option-cases (Map.get observer l.workbook)) [
    | inr (inference, e) ↦ rw (pano_body, e) h
    | inl e ↦ elim (Option-cases (infer_view ops view)) [
      | inl f ↦ rw (pano_body, e, f) h
      | inr ((inference, changed), f) ↦
          rw (pano_body, e, f)
            (put-AllValues IsBoundedView observer changed l.views
              (infer_view-IsBounded view changed inference b f) h)
    ]
  ]

  pano_loop-IsBounded :
      (views : GoMap GoString View) (l : PanoLoop)
      → AllValues IsBoundedView views
      → AllValues IsBoundedView l.views
      → AllValues IsBoundedView (pano_loop ops views l).views
  unfolding pano_loop
  pano_loop-IsBounded [] l b h = h
  pano_loop-IsBounded ((observer, view) ∷ views) l b h =
      pano_loop-IsBounded views (pano_body ops observer view l) b.1
        (pano_body-IsBounded observer view l b.0 h)

  infer_pano-IsBounded :
      (pano : Panorama) (workbook : InferMap)
      → IsBoundedPanorama pano
      → IsBoundedPanorama (infer_pano ops pano workbook).2
  unfolding infer_pano
  infer_pano-IsBounded pano workbook h = pano_loop-IsBounded pano.views _ h h

  infer_with-IsBounded :
      (raw : RawHealthStorage) (s : HealthInferenceStorage) (subject : GoString) (pano : Panorama)
      (workbook : InferMap)
      → IsBounded raw
      → IsBoundedPanorama pano
      → IsBounded (infer_with ops raw s subject pano workbook).1
  unfolding infer_with put_panorama
  infer_with-IsBounded raw s subject pano workbook h b =
      let put : IsBounded (put_panorama raw subject (infer_pano ops pano workbook).2) = (
        put-AllValues IsBoundedPanorama subject (infer_pano ops pano workbook).2 raw.tenants
            (infer_pano-IsBounded pano workbook b) h.0,
        put-Distinct subject (infer_pano ops pano workbook).2 raw.tenants h.1,
      ) in
      elim (Option-cases (infer_pano ops pano workbook).0) [
        | inl e ↦ rw (infer_with, e) put
        | inr (inference, e) ↦ rw (infer_with, e) put
      ]

  infer_subject-IsBounded :
      (raw : RawHealthStorage) (s : HealthInferenceStorage) (subject : GoString)
      → IsBounded raw
      → IsBounded (infer_subject ops raw s subject).1
  unfolding infer_subject get_panorama
  infer_subject-IsBounded raw s subject h = elim (Option-cases (Map.get subject raw.tenants)) [
    | inl e ↦ rw (infer_subject, e) h
    | inr (pano, e) ↦
        rw (infer_subject, e)
          (infer_with-IsBounded raw s subject pano [] h
            (get-AllValues IsBoundedPanorama subject pano raw.tenants h.0 e))
  ]

  infer_report-IsBounded :
      (raw : RawHealthStorage) (s : HealthInferenceStorage) (report : Report)
      → IsBounded raw
      → IsBounded (infer_report ops raw s report).1
  unfolding infer_report get_panorama
  infer_report-IsBounded raw s report h = elim (Option-cases (Map.get report.subject raw.tenants)) [
    | inl e ↦ rw (infer_report, e) h
    | inr (pano, e) ↦
        rw (infer_report, e)
          (infer_with-IsBounded raw s report.subject pano (report_workbook s report) h
            (get-AllValues IsBoundedPanorama report.subject pano raw.tenants h.0 e))
  ]

  store-IsBounded : (o : Outcome) → IsBounded o.1 → IsBounded (store_inference o).0
  unfolding store_inference
  store-IsBounded (none, raw, s) h = h
  store-IsBounded (some inference, raw, s) h = h

  receive_subject-IsBounded :
      (ch : List GoString) (raw : RawHealthStorage) (s : HealthInferenceStorage)
      → IsBounded raw
      → IsBounded (receive_subject ops ch raw s).0
  unfolding receive_subject
  receive_subject-IsBounded [] raw s h = h
  receive_subject-IsBounded (subject ∷ rest) raw s h =
      store-IsBounded (infer_subject ops raw _ subject) (infer_subject-IsBounded raw _ subject h)

  receive_report-IsBounded :
      (ch : List Report) (raw : RawHealthStorage) (s : HealthInferenceStorage)
      → IsBounded raw
      → IsBounded (receive_report ops ch raw s).0
  unfolding receive_report
  receive_report-IsBounded [] raw s h = h
  receive_report-IsBounded (report ∷ rest) raw s h =
      if-IsBounded (nat_beq (length report.subject) 0) _ _ h
        (store-IsBounded (infer_report ops raw _ report) (infer_report-IsBounded raw _ report h))
    where
      if-IsBounded :
          (b : Bool) (p q : RawHealthStorage × HealthInferenceStorage)
          → IsBounded p.0
          → IsBounded q.0
          → IsBounded (if b then p else q).0
      if-IsBounded true p q h k = h
      if-IsBounded false p q h k = k

  -- Every turn of the inference loop keeps the views within their bound.
  pub turn-IsBounded :
      (from_subjects : Bool) (raw : RawHealthStorage) (s : HealthInferenceStorage)
      → IsBounded raw
      → IsBounded (turn ops from_subjects raw s).0
  unfolding turn
  turn-IsBounded from_subjects raw s h = go s.alive from_subjects
    where
      go :
          (alive from : Bool)
          → IsBounded
              (if not alive
                then (raw, s)
                else if from
                then receive_subject ops s.subject_ch raw s
                else receive_report ops s.report_ch raw s).0
      go false from = h
      go true true = receive_subject-IsBounded s.subject_ch raw s h
      go true false = receive_report-IsBounded s.report_ch raw s h
