-- ===== src/Inferences/Answered.antt =====
-- `InferReportAsync` of store/inference.go, then the loop of `Start`: a report that is sent is answered.
use panorama.Prelude.{
  ◌≡◌, refl, ap, ap₂, subst, ◌∙◌, GoString, string_eq, str_beq_iff, none, some, List, [], ◌∷◌, ◌++◌,
  Bool, true, false, length, drop, nat_beq, ltb, not, arith, if◌then◌else◌, Bool-cases, inl, inr,
}
use panorama.Health.{Report}
use panorama.Majority.{FloatOps}
use panorama.Raw.{RawHealthStorage}
use panorama.Inferences.{
  HealthInferenceStorage, Outcome, channel_size, infer_report_async, get_inference, infer_report,
  store_inference, serve_report, receive_report, receive_subject, turn,
}
use panorama.Inferences.Results.{infer_report-Answers}
use panorama.Inferences.Served.{turns, chosen, turns-Drained}

drop-length_append {ℓ} : {A : Type ℓ} (xs ys : List A) → drop (length xs) (xs ++ ys) ≡ ys
drop-length_append [] ys = refl
drop-length_append (x ∷ xs) ys = drop-length_append xs ys

-- What sending a report changes: the channel alone.
record Queued (s sent : HealthInferenceStorage) (report : Report) : Type 0 where
  reports : sent.report_ch ≡ s.report_ch ++ report ∷ []
  alive : sent.alive ≡ s.alive

infer_report_async-Queued :
    (s sent : HealthInferenceStorage) (report : Report)
    → infer_report_async s report ≡ some sent
    → Queued s sent report
unfolding infer_report_async
infer_report_async-Queued s sent report e =
    elim (Bool-cases (ltb (length s.report_ch) channel_size)) [
      | inl f ↦
          let same : some (record s { report_ch = s.report_ch ++ report ∷ [] }) ≡ some sent =
            rw f at e in
          let equal : record s { report_ch = s.report_ch ++ report ∷ [] } ≡ sent = cc in
          subst (λ t. Queued s t report) equal (record { reports = refl; alive = refl })
      | inr f ↦ absurd (ground (arith, e, f))
    ]

module _ (ops : FloatOps) where
  turns-append :
      (schedule : List Bool) (b : Bool) (raw : RawHealthStorage) (s : HealthInferenceStorage)
      → turns ops (schedule ++ b ∷ []) raw s
        ≡ turn ops b (turns ops schedule raw s).0 (turns ops schedule raw s).1
  unfolding turns
  turns-append [] b raw s = refl
  turns-append (c ∷ schedule) b raw s =
      turns-append schedule b (turn ops c raw s).0 (turn ops c raw s).1

  get_inference-store :
      (o : Outcome) (subject : GoString)
      → get_inference (store_inference o).1 subject ≡ get_inference o.2 subject
  unfolding store_inference get_inference
  get_inference-store (none, raw, s) subject = refl
  get_inference-store (some inference, raw, s) subject = ground arith

  get_inference-infer_report :
      (raw : RawHealthStorage) (s : HealthInferenceStorage) (report : Report)
      → get_inference (infer_report ops raw s report).2 report.subject
        ≡ (infer_report ops raw s report).0
  unfolding get_inference
  get_inference-infer_report raw s report =
      infer_report-Answers ops raw s report report.subject
      ∙ rw ((str_beq_iff report.subject report.subject).1 refl)

  get_inference-receive_report :
      (raw : RawHealthStorage) (s : HealthInferenceStorage) (report : Report)
      → nat_beq (length report.subject) 0 ≡ false
      → get_inference (receive_report ops (report ∷ []) raw s).1 report.subject
        ≡ (infer_report ops raw (record s { report_ch = [] }) report).0
  unfolding receive_report serve_report
  get_inference-receive_report raw s report n = rw n (
      get_inference-store (infer_report ops raw (record s { report_ch = [] }) report) report.subject
      ∙ get_inference-infer_report raw (record s { report_ch = [] }) report)

  get_inference-turn :
      (raw : RawHealthStorage) (s : HealthInferenceStorage) (report : Report)
      → s.alive ≡ true
      → nat_beq (length report.subject) 0 ≡ false
      → s.report_ch ≡ report ∷ []
      → get_inference (turn ops false raw s).1 report.subject
        ≡ (infer_report ops raw (record s { report_ch = [] }) report).0
  unfolding turn
  get_inference-turn raw s report a n e = running s.alive a (
      ap (λ ch. get_inference (receive_report ops ch raw s).1 report.subject) e
      ∙ get_inference-receive_report raw s report n)
    where
      running :
          (alive : Bool)
          → alive ≡ true
          → get_inference (receive_report ops s.report_ch raw s).1 report.subject
            ≡ (infer_report ops raw (record s { report_ch = [] }) report).0
          → get_inference
              (if not alive
                then (raw, s)
                else if false
                then receive_subject ops s.subject_ch raw s
                else receive_report ops s.report_ch raw s).1
              report.subject
            ≡ (infer_report ops raw (record s { report_ch = [] }) report).0
      running true t h = h
      running false t h = absurd (ground (arith, t))

  -- A report about a subject with a name, which a running service has been sent, is answered once
  -- the loop has chosen the channel of the reports once more than there were reports in it: the
  -- result of the subject is then what `InferReport` returns at that time.
  pub infer_report_async-answered :
      (schedule : List Bool) (raw : RawHealthStorage) (s sent : HealthInferenceStorage)
      (report : Report)
      → s.alive ≡ true
      → nat_beq (length report.subject) 0 ≡ false
      → infer_report_async s report ≡ some sent
      → chosen ops false schedule ≡ length s.report_ch
      → get_inference (turns ops (schedule ++ false ∷ []) raw sent).1 report.subject
        ≡ (infer_report ops
            (turns ops schedule raw sent).0
            (record (turns ops schedule raw sent).1 { report_ch = [] })
            report).0
  infer_report_async-answered schedule raw s sent report a n e c =
      let queued = infer_report_async-Queued s sent report e in
      let drained = turns-Drained ops schedule raw sent (queued.alive ∙ a) in
      ap (λ r. get_inference r.1 report.subject) (turns-append schedule false raw sent)
      ∙ get_inference-turn (turns ops schedule raw sent).0 (turns ops schedule raw sent).1 report
          drained.alive n
          (drained.reports
            ∙ ap₂ drop c queued.reports
            ∙ drop-length_append s.report_ch (report ∷ []))
