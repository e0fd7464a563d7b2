-- ===== src/Majority/Votes.antt =====
-- `InferPano` of decision/majority.go as a whole: which inferences it consults, and its result.
use panorama.Prelude.{
  subst, ◌↔◌, ◌<◌, ◌≡◌, refl, sym, ◌∙◌, ◌⊎◌, inl, inr, ◌==◌, beq→eq, GoString, string_eq,
  str_beq_iff, Option, none, some, List, [], ◌∷◌, ◌++◌, length, All, arith, Bool-cases,
  Option-cases,
}
use panorama.Prelude.Map
use panorama.Prelude.Map.{GoMap, Distinct, get-put, get-update_all}
use panorama.Health.{Status, Value, Metric, View, Panorama, Inference, Observation}
use panorama.Majority.{FloatOps, infer_view, infer_observations}
use panorama.Majority.Pano.{
  ValueStat, stat_or_new, add_vote, tally, PanoLoop, later_ts, absorb, pano_body, pano_loop,
  pano_start, decide_metric, infer_pano,
}
use panorama.Majority.Tallies.{Beaten, count, total, voted, voted_first-Tallied, pick-most}

abbrev value_list : Option Metric → List Value
value_list none = []
value_list (some metric) = metric.value ∷ []

module _ (ops : FloatOps) where
  -- The inferences that the loop takes into account, in its order: of each view the one in the
  -- workbook, and else the view's own, if the view is not empty.
  unfoldable pub consulted : GoMap GoString View → GoMap GoString Inference → List Inference
  consulted [] workbook = []
  consulted ((observer, view) ∷ views) workbook =
      let rest = consulted views workbook in
      elim (Map.get observer workbook) [
        | some inference ↦ inference ∷ rest
        | none ↦ elim (infer_view ops view) [
          | none ↦ rest
          | some (inference, changed) ↦ inference ∷ rest
        ]
      ]

  -- What the consulted inferences say about one metric.
  unfoldable pub ballots : GoString → List Inference → List Value
  ballots name [] = []
  ballots name (inference ∷ infs) =
      value_list (Map.get name inference.observation.metrics) ++ ballots name infs

  abbrev pub AreVotes : List Inference → Type 0
  AreVotes = All (λ inference. Distinct inference.observation.metrics)

  get-tally :
      (metrics : GoMap GoString Metric) (statmap : GoMap GoString ValueStat) (name : GoString)
      → Distinct metrics
      → Map.get name (tally ops metrics statmap)
        ≡ voted ops (value_list (Map.get name metrics)) (Map.get name statmap)
  unfolding tally Map.get
  get-tally [] statmap name d = refl
  get-tally ((n, metric) ∷ metrics) statmap name d =
      let stat = add_vote ops metric.value (stat_or_new ops (Map.get n statmap)) in
      get-tally metrics (Map.put n stat statmap) name d.1
      ∙ rw (get-put n name stat statmap) (elim (Bool-cases (n == name)) [
        | inl h ↦ rw h (rw (← beq→eq n name h, d.0) refl)
        | inr h ↦ rw h
      ])

  abbrev absorb_all : List Inference → PanoLoop → PanoLoop
  absorb_all [] l = l
  absorb_all (inference ∷ infs) l = absorb_all infs (absorb ops inference l)

  voted-append :
      (vs ws : List Value) (o : Option ValueStat)
      → voted ops (vs ++ ws) o ≡ voted ops ws (voted ops vs o)
  voted-append [] ws o = refl
  voted-append (v ∷ vs) ws o = voted-append vs ws _

  -- The workbooks agree on the observers of the views that are still to come.
  abbrev Agree : GoMap GoString View → GoMap GoString Inference → GoMap GoString Inference → Type 0
  Agree views w w' = All (λ e. Map.get e.0 w ≡ Map.get e.0 w') views

  Agree-put :
      (views : GoMap GoString View) (observer : GoString) (inference : Inference)
      (w w' : GoMap GoString Inference)
      → Map.get observer views ≡ none
      → Agree views w w'
      → Agree views (Map.put observer inference w) w'
  unfolding Map.get
  Agree-put [] observer inference w w' h a = tt
  Agree-put ((name, view) ∷ views) observer inference w w' h a = (
    ground (
      arith,
      get-put observer name inference w,
      str_beq_iff name observer,
      str_beq_iff observer name,
      a.0,
    ),
    Agree-put views observer inference w w' (ground arith) a.1,
  )

  -- One turn of the loop: an inference is absorbed, or an empty view is passed over; the workbook
  -- gains no entry but the observer's.
  abbrev Turn : GoString → View → GoMap GoString View → GoMap GoString Inference → PanoLoop → Type 0
  Turn observer view views workbook l =
      ((consulted ((observer, view) ∷ views) workbook ≡ consulted views workbook)
        × ((pano_body ops observer view l).statmap ≡ l.statmap)
        × ((pano_body ops observer view l).pts ≡ l.pts)
        × Agree views (pano_body ops observer view l).workbook workbook)
      ⊎ ((inference : Inference) × (consulted ((observer, view) ∷ views) workbook
            ≡ inference ∷ consulted views workbook)
          × ((pano_body ops observer view l).statmap
              ≡ tally ops inference.observation.metrics l.statmap)
          × ((pano_body ops observer view l).pts ≡ some (later_ts l.pts inference.observation.ts))
          × Agree views (pano_body ops observer view l).workbook workbook)

  turn :
      (observer : GoString) (view : View) (views : GoMap GoString View) (l : PanoLoop)
      (workbook : GoMap GoString Inference)
      → Map.get observer views ≡ none
      → Agree ((observer, view) ∷ views) l.workbook workbook
      → Turn observer view views workbook l
  unfolding pano_body consulted
  turn observer view views l workbook d a = elim (Option-cases (Map.get observer workbook)) [
    | inr (inference, e) ↦
        rw (pano_body, consulted, a.0 ∙ e, e) (inr (inference, refl, refl, refl, a.1))
    | inl e ↦ elim (Option-cases (infer_view ops view)) [
      | inl f ↦ rw (pano_body, consulted, a.0 ∙ e, e, f) (inl (refl, refl, refl, a.1))
      | inr ((inference, changed), f) ↦
          rw (pano_body, consulted, a.0 ∙ e, e, f)
            (inr (
              inference,
              refl,
              refl,
              refl,
              Agree-put views observer inference l.workbook workbook d a.1,
            ))
    ]
  ]

  -- The statistics of one metric after the loop.
  statmap-pano_loop :
      (views : GoMap GoString View) (l : PanoLoop) (workbook : GoMap GoString Inference)
      (name : GoString)
      → Distinct views
      → Agree views l.workbook workbook
      → AreVotes (consulted views workbook)
      → Map.get name (pano_loop ops views l).statmap
        ≡ voted ops (ballots name (consulted views workbook)) (Map.get name l.statmap)
  unfolding pano_loop ballots
  statmap-pano_loop [] l workbook name d a v = unfold consulted in refl
  statmap-pano_loop ((observer, view) ∷ views) l workbook name d a v =
      let l' = pano_body ops observer view l in
      elim (turn observer view views l workbook d.0 a) [
        | inl (c, sm, p, ag) ↦
            statmap-pano_loop views l' workbook name d.1 ag (subst AreVotes c v) ∙ rw (c, sm) refl
        | inr (inference, c, sm, p, ag) ↦
            let v' : AreVotes (inference ∷ consulted views workbook) = subst AreVotes c v in
            statmap-pano_loop views l' workbook name d.1 ag v'.1
            ∙ rw (c, sm, get-tally inference.observation.metrics l.statmap name v'.0)
                (sym (
                  voted-append (value_list (Map.get name inference.observation.metrics))
                    (ballots name (consulted views workbook)) (Map.get name l.statmap)))
      ]

  -- The timestamp is found exactly if some inference is consulted.
  pts-pano_loop :
      (views : GoMap GoString View) (l : PanoLoop) (workbook : GoMap GoString Inference)
      → Distinct views
      → Agree views l.workbook workbook
      → ((pano_loop ops views l).pts ≡ none) ↔ ((l.pts ≡ none) × (consulted views workbook ≡ []))
  unfolding pano_loop
  pts-pano_loop [] l workbook d a = (λ h. (h, unfold consulted in refl), λ h. h.0)
  pts-pano_loop ((observer, view) ∷ views) l workbook d a =
      let l' = pano_body ops observer view l in
      elim (turn observer view views l workbook d.0 a) [
        | inl (c, sm, p, ag) ↦
            let ih = pts-pano_loop views l' workbook d.1 ag in
            (λ h. (sym p ∙ (ih.0 h).0, c ∙ (ih.0 h).1), λ h. ih.1 (p ∙ h.0, sym c ∙ h.1))
        | inr (inference, c, sm, p, ag) ↦
            let ih = pts-pano_loop views l' workbook d.1 ag in
            (λ h. absurd (ground (arith, (ih.0 h).0, p)), λ h. ground (arith, h.1, c))
      ]

  Agree-refl : (views : GoMap GoString View) (w : GoMap GoString Inference) → Agree views w w
  Agree-refl [] w = tt
  Agree-refl (e ∷ views) w = (refl, Agree-refl views w)

  -- No view has an observation, and no observer an entry in the workbook.
  abbrev pub IsSilent : GoMap GoString Inference → GoMap GoString View → Type 0
  IsSilent workbook = All λ e. (e.1.observations ≡ []) × (Map.get e.0 workbook ≡ none)

  infer_observations-none :
      (subject observer : GoString) (obs : List Observation)
      → infer_observations ops subject observer obs ≡ none
      → obs ≡ []
  unfolding infer_observations
  infer_observations-none subject observer [] h = refl
  infer_observations-none subject observer (val ∷ obs) h = absurd (ground (arith, h))

  infer_view-none : (view : View) → (infer_view ops view ≡ none) ↔ (view.observations ≡ [])
  unfolding infer_view infer_observations
  infer_view-none view = (
    λ h.
        infer_observations-none view.subject view.observer view.observations
          (elim (Option-cases
            (infer_observations ops view.subject view.observer view.observations)) [
              | inl e ↦ e
              | inr (r, e) ↦ absurd (ground (arith, h, e))
            ]),
    λ h. rw (infer_view, h),
  )

  consulted-IsSilent :
      (views : GoMap GoString View) (workbook : GoMap GoString Inference)
      → (consulted views workbook ≡ []) ↔ IsSilent workbook views
  unfolding consulted
  consulted-IsSilent [] workbook = (λ h. tt, λ h. refl)
  consulted-IsSilent ((observer, view) ∷ views) workbook =
      let ih = consulted-IsSilent views workbook in
      elim (Option-cases (Map.get observer workbook)) [
        | inr (inference, e) ↦
            (λ h. absurd (ground (arith, h, e)), λ h. absurd (ground (arith, h.0.1, e)))
        | inl e ↦ elim (Option-cases (infer_view ops view)) [
          | inr (r, f) ↦ (
            λ h. absurd (ground (arith, h, e, f)),
            λ h. absurd (ground (arith, (infer_view-none view).1 h.0.0, f)),
          )
          | inl f ↦ (
            λ h. (((infer_view-none view).0 f, e), ih.0 (ground (arith, h, e, f))),
            λ h. ground (arith, ih.1 h.1, e, f),
          )
        ]
      ]

  -- `InferPano` of a panorama whose observers are distinct gives no inference exactly if no view has
  -- an observation and no observer of a view an entry in the workbook. Every observation has a
  -- timestamp.
  pub infer_pano-none_iff :
      (pano : Panorama) (workbook : GoMap GoString Inference)
      → Distinct pano.views
      → ((infer_pano ops pano workbook).0 ≡ none) ↔ IsSilent workbook pano.views
  unfolding infer_pano
  infer_pano-none_iff pano workbook d =
      let found =
        pts-pano_loop pano.views (pano_start ops pano workbook) workbook d
          (Agree-refl pano.views workbook) in
      let silent = consulted-IsSilent pano.views workbook in
      (
        λ h. silent.0 (found.0 (ground (arith, h))).1,
        λ h. ground (arith, found.1 (refl, silent.1 h)),
      )

  -- How the inference speaks of a metric, given the values that the consulted inferences have for it.
  abbrev pub Decided : GoString → List Value → Option Metric → Type 0
  Decided name [] o = o ≡ none
  Decided name (v ∷ vs) o =
      (metric : Metric) × (o ≡ some metric)
      × (metric.name ≡ name)
      × (metric.value.score
          ≡ ops.div (total ops ops.zero_score (v ∷ vs)) (ops.of_count (length (v ∷ vs))))
      × ((st : Status)
          → Beaten st (count st (v ∷ vs)) metric.value.status (count metric.value.status (v ∷ vs)))

  Decided-voted :
      (name : GoString) (vs : List Value)
      → length vs < 4294967296
      → Decided name vs (elim (voted ops vs none) [
        | none ↦ none
        | some stat ↦ some (decide_metric ops name stat)
      ])
  unfolding decide_metric
  Decided-voted name [] h = refl
  Decided-voted name (v ∷ vs) h =
      let (stat, e, t) = voted_first-Tallied ops v vs h in
      rw e (decide_metric ops name stat, refl, refl, rw (t.sum, t.size), pick-most ops stat v vs t)

  -- The inference of a panorama has a metric exactly if some consulted inference has it. Its status
  -- is the one with the most votes, and of those with as many the most severe; its score is the
  -- mean. Observers and metrics are distinct, and fewer than 2^32 inferences have the metric.
  pub infer_pano-Decided :
      (pano : Panorama) (workbook : GoMap GoString Inference) (inference : Inference)
      (name : GoString)
      → Distinct pano.views
      → AreVotes (consulted pano.views workbook)
      → length (ballots name (consulted pano.views workbook)) < 4294967296
      → (infer_pano ops pano workbook).0 ≡ some inference
      → Decided name
          (ballots name (consulted pano.views workbook))
          (Map.get name inference.observation.metrics)
  unfolding infer_pano Map.get
  infer_pano-Decided pano workbook inference name d v h e =
      let l = pano_loop ops pano.views (pano_start ops pano workbook) in
      let found : inference.observation.metrics ≡ Map.update_all (decide_metric ops) l.statmap =
        ground (arith, e) in
      rw
        (
          found,
          get-update_all (decide_metric ops) name l.statmap,
          statmap-pano_loop pano.views (pano_start ops pano workbook) workbook name d
              (Agree-refl pano.views workbook) v,
        )
        (Decided-voted name (ballots name (consulted pano.views workbook)) h)
