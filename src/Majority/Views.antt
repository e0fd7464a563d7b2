-- ===== src/Majority/Views.antt =====
-- `InferView` of decision/majority.go, one metric at a time.
use panorama.Prelude.{
  ℕ, suc, ◌+◌, ◌≡◌, refl, sym, ap, ◌∙◌, ◌==◌, beq→eq, GoString, string_eq, str_beq_iff, Option,
  none, some, List, [], ◌∷◌, ◌++◌, true, false, ◌&&◌, ◌||◌, not, leb, All, if◌then◌else◌, arith,
  Bool-cases, Option-cases, ◌⊎◌, inl, inr,
}
use mathlib.Core.List.{append-nil, append_assoc}
use panorama.Prelude.Map
use panorama.Prelude.Map.{GoMap, Distinct, get-put, get-update_all}
use panorama.Health.{healthy, pending, status_beq, Metric, Observation, Inference}
use panorama.Majority.{
  FloatOps, view_metric_history_size, AggCnt, Slot, Work, accumulate, merge, visit, visit_all, scan,
  average, summary_slots, infer_observations,
}

-- What the loops of `InferView` hold about one metric: its counter and its entry.
abbrev Track : Type 0
Track = Option AggCnt × Option Slot

abbrev track_of : GoString → Work → Track
track_of name w = (Map.get name w.aggs, Map.get name w.metrics)

module _ (ops : FloatOps) where
  abbrev track_merge : Metric → AggCnt → Slot → Track
  track_merge metric agg m1 =
      if status_beq metric.value.status pending && status_beq m1.metric.value.status healthy
      then (some agg, some m1)
      else if not (status_beq m1.metric.value.status metric.value.status)
      then (some (record agg { stop = true }), some m1)
      else (some (record agg { cnt = agg.cnt + 1 }), some (accumulate ops m1 metric))

  track : ℕ → Metric → Track → Track
  track i metric (none, slot) =
      (some (record { cnt = 1; stop = false }), some (record { metric = metric; from = i }))
  track i metric (some agg, none) = (some agg, none)
  track i metric (some agg, some m1) =
      if agg.stop || leb view_metric_history_size agg.cnt
      then (some agg, some m1)
      else track_merge metric agg m1

  track_of-merge :
      (name : GoString) (metric : Metric) (agg : AggCnt) (m1 : Slot) (w : Work) (n : GoString)
      → track_of name w ≡ (some agg, some m1)
      → track_of n (merge ops name metric agg m1 w)
        ≡ (if name == n then track_merge metric agg m1 else track_of n w)
  unfolding merge
  track_of-merge name metric agg m1 w n e = ground (
    arith,
    str_beq_iff name n,
    get-put name n (record agg { stop = true }) w.aggs,
    get-put name n (record agg { cnt = agg.cnt + 1 }) w.aggs,
    get-put name n (accumulate ops m1 metric) w.metrics,
  )

  track_of-visit :
      (i : ℕ) (name : GoString) (metric : Metric) (w : Work) (n : GoString)
      → track_of n (visit ops i name metric w)
        ≡ (if name == n then track i metric (track_of name w) else track_of n w)
  unfolding visit track
  track_of-visit i name metric w n = elim (Option-cases (Map.get name w.aggs)) [
    | inl e ↦ ground (
      arith,
      str_beq_iff name n,
      get-put name n (record { cnt = 1; stop = false }) w.aggs,
      get-put name n (record { metric = metric; from = i }) w.metrics,
    )
    | inr (agg, e) ↦ elim (Option-cases (Map.get name w.metrics)) [
      | inl f ↦ ground (arith, str_beq_iff name n)
      | inr (m1, f) ↦
          ground
            (arith, str_beq_iff name n, track_of-merge name metric agg m1 w n (λ d. (e d, f d)))
    ]
  ]

  abbrev track_option : ℕ → Option Metric → Track → Track
  track_option i none t = t
  track_option i (some metric) t = track i metric t

  track_of-visit_all :
      (i : ℕ) (metrics : GoMap GoString Metric) (w : Work) (n : GoString)
      → Distinct metrics
      → track_of n (visit_all ops i metrics w) ≡ track_option i (Map.get n metrics) (track_of n w)
  unfolding visit_all Map.get
  track_of-visit_all i [] w n d = refl
  track_of-visit_all i ((name, metric) ∷ metrics) w n d =
      track_of-visit_all i metrics (visit ops i name metric w) n d.1
      ∙ rw (track_of-visit i name metric w n) (elim (Bool-cases (name == n)) [
        | inl h ↦ rw h (rw (← beq→eq name n h, d.0) refl)
        | inr h ↦ rw h
      ])

  -- What the observations say about one metric, newest first.
  abbrev as_list : Option Metric → List Metric
  as_list none = []
  as_list (some metric) = metric ∷ []

  unfoldable pub history : GoString → List Observation → List Metric
  history name [] = []
  history name (val ∷ obs) = history name obs ++ as_list (Map.get name val.metrics)

  -- The newest metric, with the mean of its score and of the next older one that is not a pending
  -- status resolved to healthy, if that has the same status.
  pub settle : Metric → List Metric → Metric
  settle v [] = v
  settle v (w ∷ ws) =
      let rest = settle v ws in
      if status_beq w.value.status pending && status_beq v.value.status healthy
      then rest
      else if status_beq v.value.status w.value.status
      then record v {
        value = record v.value {
          score = ops.div (ops.add v.value.score w.value.score) (ops.of_count 2);
        };
      }
      else v

  pub summarise : List Metric → Option Metric
  summarise [] = none
  summarise (v ∷ vs) = some (settle v vs)

  -- The summary if the older metrics `ws` are still to come.
  resolve : Track → List Metric → Option Metric
  resolve (none, slot) ws = summarise ws
  resolve (some agg, none) ws = none
  resolve (some agg, some slot) ws =
      if agg.stop || leb view_metric_history_size agg.cnt
      then some (average ops (some agg) slot).metric
      else some (settle slot.metric ws)

  abbrev IsCounted : Track → Type 0
  IsCounted (none, none) = Unit
  IsCounted (none, some slot) = ⊥
  IsCounted (some agg, none) = ⊥
  IsCounted (some agg, some slot) = (agg.cnt ≡ 1) ⊎ ((agg.cnt ≡ 2) × (agg.stop ≡ false))

  track-IsCounted :
      (i : ℕ) (metric : Metric) (t : Track) → IsCounted t → IsCounted (track i metric t)
  unfolding track
  track-IsCounted i metric (none, none) h = inl refl
  track-IsCounted i metric (none, some slot) h = absurd h
  track-IsCounted i metric (some agg, none) h = absurd h
  track-IsCounted i metric (some agg, some slot) h = ground arith

  resolve-track :
      (i : ℕ) (metric : Metric) (t : Track) (ws : List Metric)
      → IsCounted t
      → resolve (track i metric t) ws ≡ resolve t (metric ∷ ws)
  unfolding track resolve summarise settle average accumulate
  resolve-track i metric (none, none) ws h = refl
  resolve-track i metric (none, some slot) ws h = absurd h
  resolve-track i metric (some agg, none) ws h = absurd h
  resolve-track i metric (some agg, some slot) ws h = ground arith

  -- The maps of the observations are maps: no key stands twice.
  abbrev pub AreMaps : List Observation → Type 0
  AreMaps = All (λ val. Distinct val.metrics)

  abbrev start : Work
  start = record { metrics = []; aggs = [] }

  option-IsCounted :
      (i : ℕ) (o : Option Metric) (t : Track) → IsCounted t → IsCounted (track_option i o t)
  option-IsCounted i none t h = h
  option-IsCounted i (some metric) t h = track-IsCounted i metric t h

  scan-IsCounted :
      (i : ℕ) (obs : List Observation) (n : GoString)
      → AreMaps obs
      → IsCounted (track_of n (scan ops i obs start))
  unfolding scan Map.get
  scan-IsCounted i [] n d = tt
  scan-IsCounted i (val ∷ obs) n d =
      rw (track_of-visit_all i val.metrics (scan ops (suc i) obs start) n d.0)
        (option-IsCounted i (Map.get n val.metrics) _ (scan-IsCounted (suc i) obs n d.1))

  resolve-option :
      (i : ℕ) (o : Option Metric) (t : Track) (hs ws : List Metric)
      → IsCounted t
      → ((vs : List Metric) → resolve t vs ≡ summarise (hs ++ vs))
      → resolve (track_option i o t) ws ≡ summarise ((hs ++ as_list o) ++ ws)
  resolve-option i none t hs ws c h = rw (append-nil hs) (h ws)
  resolve-option i (some metric) t hs ws c h =
      resolve-track i metric t ws c
      ∙ h (metric ∷ ws)
      ∙ ap summarise (sym (append_assoc hs (metric ∷ []) ws))

  resolve-scan :
      (i : ℕ) (obs : List Observation) (n : GoString) (ws : List Metric)
      → AreMaps obs
      → resolve (track_of n (scan ops i obs start)) ws ≡ summarise (history n obs ++ ws)
  unfolding scan history Map.get resolve
  resolve-scan i [] n ws d = refl
  resolve-scan i (val ∷ obs) n ws d =
      rw (track_of-visit_all i val.metrics (scan ops (suc i) obs start) n d.0) (
        resolve-option i (Map.get n val.metrics) _ (history n obs) ws
          (scan-IsCounted (suc i) obs n d.1) (λ vs. resolve-scan (suc i) obs n vs d.1))

  outcome : Track → Option Metric
  outcome (a, none) = none
  outcome (a, some slot) = some (average ops a slot).metric

  resolve-outcome : (t : Track) → IsCounted t → resolve t [] ≡ outcome t
  unfolding resolve outcome summarise settle average
  resolve-outcome (none, none) h = refl
  resolve-outcome (none, some slot) h = absurd h
  resolve-outcome (some agg, none) h = absurd h
  resolve-outcome (some agg, some slot) h = ground arith

  abbrev pub metrics_of : GoMap GoString Slot → GoMap GoString Metric
  metrics_of slots = Map.update_all (λ name slot. slot.metric) slots

  get-summary_slots :
      (obs : List Observation) (n : GoString)
      → Map.get n (metrics_of (summary_slots ops obs)) ≡ outcome (track_of n (scan ops 0 obs start))
  unfolding summary_slots outcome
  get-summary_slots obs n =
      let w = scan ops 0 obs start in
      ground (
        arith,
        get-update_all (λ name slot. slot.metric) n (summary_slots ops obs),
        get-update_all (λ name slot. average ops (Map.get name w.aggs) slot) n w.metrics,
      )

  -- The summary of a view that is not empty, with distinct metrics in each observation, has a metric
  -- exactly if some observation has it, and then it is the newest one, with the mean of its score
  -- and of the next older one that is not a pending status resolved to healthy, if that has the
  -- same status.
  pub get-infer_observations :
      (subject observer : GoString) (val : Observation) (obs : List Observation) (name : GoString)
      → AreMaps (val ∷ obs)
      → (inference : Inference) × (changed : List Observation) × (infer_observations ops subject
            observer
            (val ∷ obs)
          ≡ some (inference, changed))
        × (Map.get name inference.observation.metrics ≡ summarise (history name (val ∷ obs)))
  unfolding infer_observations
  get-infer_observations subject observer val obs name d = (
    _,
    _,
    refl,
    get-summary_slots (val ∷ obs) name
        ∙ sym (resolve-outcome _ (scan-IsCounted 0 (val ∷ obs) name d))
        ∙ resolve-scan 0 (val ∷ obs) name [] d
        ∙ ap summarise (append-nil (history name (val ∷ obs))),
  )
