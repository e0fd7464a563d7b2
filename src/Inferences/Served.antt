-- ===== src/Inferences/Served.antt =====
-- The loop of `Start` of store/inference.go over a schedule, the choices of its `select`: every
-- message that waits in a channel is received.
use panorama.Prelude.{
  ℕ, zero, suc, ◌≡◌, refl, ap, ◌∙◌, GoString, string_eq, none, some, List, [], ◌∷◌, Bool, true,
  false, length, drop, nat_beq, arith, if◌then◌else◌, Option-cases, Bool-cases, inl, inr,
}
use panorama.Health.{Report, Panorama}
use panorama.Majority.{FloatOps}
use panorama.Majority.Pano.{infer_pano}
use panorama.Raw.{RawHealthStorage, get_panorama}
use panorama.Inferences.{
  HealthInferenceStorage, InferMap, Outcome, reset, infer_with, infer_subject, infer_report,
  report_workbook, store_inference, receive_subject, receive_report, serve_report, serve_subject,
  turn,
}

drop-drop_one {ℓ} : {A : Type ℓ} (n : ℕ) (xs : List A) → drop n (drop 1 xs) ≡ drop (suc n) xs
drop-drop_one zero [] = refl
drop-drop_one (suc n) [] = refl
drop-drop_one n (x ∷ xs) = refl

record SameChannels (s s' : HealthInferenceStorage) : Type 0 where
  subjects : s'.subject_ch ≡ s.subject_ch
  reports : s'.report_ch ≡ s.report_ch
  alive : s'.alive ≡ s.alive

module _ (ops : FloatOps) where
  infer_with-SameChannels :
      (raw : RawHealthStorage) (s : HealthInferenceStorage) (subject : GoString) (pano : Panorama)
      (workbook : InferMap)
      → SameChannels s (infer_with ops raw s subject pano workbook).2
  unfolding infer_with reset
  infer_with-SameChannels raw s subject pano workbook =
      elim (Option-cases (infer_pano ops pano workbook).0) [
        | inl e ↦ rw (infer_with, e) (record { subjects = refl; reports = refl; alive = refl })
        | inr (inference, e) ↦
            rw (infer_with, e) (record { subjects = refl; reports = refl; alive = refl })
      ]

  infer_subject-SameChannels :
      (raw : RawHealthStorage) (s : HealthInferenceStorage) (subject : GoString)
      → SameChannels s (infer_subject ops raw s subject).2
  unfolding infer_subject reset
  infer_subject-SameChannels raw s subject = elim (Option-cases (get_panorama raw subject)) [
    | inl e ↦ rw (infer_subject, e) (record { subjects = refl; reports = refl; alive = refl })
    | inr (pano, e) ↦ rw (infer_subject, e) (infer_with-SameChannels raw s subject pano [])
  ]

  infer_report-SameChannels :
      (raw : RawHealthStorage) (s : HealthInferenceStorage) (report : Report)
      → SameChannels s (infer_report ops raw s report).2
  unfolding infer_report reset
  infer_report-SameChannels raw s report = elim (Option-cases (get_panorama raw report.subject)) [
    | inl e ↦ rw (infer_report, e) (record { subjects = refl; reports = refl; alive = refl })
    | inr (pano, e) ↦
        rw (infer_report, e)
          (infer_with-SameChannels raw s report.subject pano (report_workbook s report))
  ]

  store-SameChannels :
      (s : HealthInferenceStorage) (o : Outcome)
      → SameChannels s o.2
      → SameChannels s (store_inference o).1
  unfolding store_inference
  store-SameChannels s (none, raw, s') h = h
  store-SameChannels s (some inference, raw, s') h = ground (arith, h)

  serve_report-SameChannels :
      (report : Report) (raw : RawHealthStorage) (s : HealthInferenceStorage)
      → SameChannels s (serve_report ops report raw s).1
  unfolding serve_report
  serve_report-SameChannels report raw s = elim (Bool-cases (nat_beq (length report.subject) 0)) [
    | inl e ↦ rw (serve_report, e) (record { subjects = refl; reports = refl; alive = refl })
    | inr e ↦
        rw (serve_report, e)
          (store-SameChannels s (infer_report ops raw s report)
            (infer_report-SameChannels raw s report))
  ]

  -- A turn of a running loop takes the first message of one channel, if there is any.
  record Takes (from_subjects : Bool) (s s' : HealthInferenceStorage) : Type 0 where
    subjects : s'.subject_ch ≡ (if from_subjects then drop 1 s.subject_ch else s.subject_ch)
    reports : s'.report_ch ≡ (if from_subjects then s.report_ch else drop 1 s.report_ch)
    alive : s'.alive ≡ true

  receive_subject-Takes :
      (ch : List GoString) (raw : RawHealthStorage) (s : HealthInferenceStorage)
      → s.subject_ch ≡ ch
      → s.alive ≡ true
      → Takes true s (receive_subject ops ch raw s).1
  unfolding receive_subject serve_subject
  receive_subject-Takes [] raw s e a = record { subjects = rw e; reports = refl; alive = a }
  receive_subject-Takes (subject ∷ rest) raw s e a =
      let rest_of = record s { subject_ch = rest } in
      let same =
        store-SameChannels rest_of (infer_subject ops raw rest_of subject)
          (infer_subject-SameChannels raw rest_of subject) in
      record { subjects = same.subjects ∙ rw e; reports = same.reports; alive = same.alive ∙ a }

  receive_report-Takes :
      (ch : List Report) (raw : RawHealthStorage) (s : HealthInferenceStorage)
      → s.report_ch ≡ ch
      → s.alive ≡ true
      → Takes false s (receive_report ops ch raw s).1
  unfolding receive_report
  receive_report-Takes [] raw s e a = record { subjects = refl; reports = rw e; alive = a }
  receive_report-Takes (report ∷ rest) raw s e a =
      let same = serve_report-SameChannels report raw (record s { report_ch = rest }) in
      record { subjects = same.subjects; reports = same.reports ∙ rw e; alive = same.alive ∙ a }

  turn-Takes :
      (from_subjects : Bool) (raw : RawHealthStorage) (s : HealthInferenceStorage)
      → s.alive ≡ true
      → Takes from_subjects s (turn ops from_subjects raw s).1
  unfolding turn
  turn-Takes true raw s a = simp (turn, a) (receive_subject-Takes s.subject_ch raw s refl a)
  turn-Takes false raw s a = simp (turn, a) (receive_report-Takes s.report_ch raw s refl a)

  -- The loop over a schedule.
  unfoldable pub turns :
      List Bool
      → RawHealthStorage
      → HealthInferenceStorage
      → RawHealthStorage × HealthInferenceStorage
  turns [] raw s = (raw, s)
  turns (from_subjects ∷ schedule) raw s =
      let (raw', s') = turn ops from_subjects raw s in turns schedule raw' s'

  -- How often the schedule chooses a channel.
  abbrev pub chosen : Bool → List Bool → ℕ
  chosen b [] = 0
  chosen true (true ∷ schedule) = suc (chosen true schedule)
  chosen true (false ∷ schedule) = chosen true schedule
  chosen false (true ∷ schedule) = chosen false schedule
  chosen false (false ∷ schedule) = suc (chosen false schedule)

  -- What a schedule leaves in the channels of a running loop.
  pub record Drained (schedule : List Bool) (s s' : HealthInferenceStorage) : Type 0 where
    pub subjects : s'.subject_ch ≡ drop (chosen true schedule) s.subject_ch
    pub reports : s'.report_ch ≡ drop (chosen false schedule) s.report_ch
    pub alive : s'.alive ≡ true

  -- A running loop takes from each channel the first messages, one for every time that its schedule
  -- chooses the channel, and stays alive.
  pub turns-Drained :
      (schedule : List Bool) (raw : RawHealthStorage) (s : HealthInferenceStorage)
      → s.alive ≡ true
      → Drained schedule s (turns schedule raw s).1
  unfolding turns
  turns-Drained [] raw s a = record { subjects = refl; reports = refl; alive = a }
  turns-Drained (true ∷ schedule) raw s a =
      let (raw', s') = turn ops true raw s in
      let taken = turn-Takes true raw s a in
      let rest = turns-Drained schedule raw' s' taken.alive in
      record {
        subjects =
            rest.subjects
            ∙ ap (drop (chosen true schedule)) taken.subjects
            ∙ drop-drop_one (chosen true schedule) s.subject_ch;
        reports = rest.reports ∙ ap (drop (chosen false schedule)) taken.reports;
        alive = rest.alive;
      }
  turns-Drained (false ∷ schedule) raw s a =
      let (raw', s') = turn ops false raw s in
      let taken = turn-Takes false raw s a in
      let rest = turns-Drained schedule raw' s' taken.alive in
      record {
        subjects = rest.subjects ∙ ap (drop (chosen true schedule)) taken.subjects;
        reports =
            rest.reports
            ∙ ap (drop (chosen false schedule)) taken.reports
            ∙ drop-drop_one (chosen false schedule) s.report_ch;
        alive = rest.alive;
      }
