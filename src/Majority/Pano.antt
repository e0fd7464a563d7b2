-- ===== src/Majority/Pano.antt =====
-- `InferPano` of decision/majority.go: the vote of the views' inferences on each metric.
use panorama.Prelude.{
  ℕ, ◌+◌, ◌%◌, GoString, string_eq, Option, none, some, List, [], ◌∷◌, ◌&&◌, ltb, nat_beq, length,
  set, replicate, if◌then◌else◌,
}
use panorama.Prelude.Map
use panorama.Prelude.Map.{GoMap}
use panorama.Prelude.Int.{pos, ltb_ℤ}
use panorama.Timestamp.{Timestamp, compare_timestamp}
use panorama.Health.{
  Status, healthy, number, status_eq, Score, Value, Metric, View, Panorama, Inference,
}
use panorama.Majority.{FloatOps, infer_view}

pub record ValueStat : Type 0 where
  pub score_sum : Score
  pub cnt : ℕ
  pub status_hist : GoMap Status ℕ

abbrev pub uint32_inc : ℕ → ℕ
uint32_inc n = (n + 1) % 4294967296

abbrev pub count_of : Option ℕ → ℕ
count_of none = 0
count_of (some n) = n

module _ (ops : FloatOps) where
  abbrev pub stat_or_new : Option ValueStat → ValueStat
  stat_or_new (some stat) = stat
  stat_or_new none = record { score_sum = ops.zero_score; cnt = 0; status_hist = [] }

  unfoldable pub add_vote : Value → ValueStat → ValueStat
  add_vote value stat = record {
    score_sum = ops.add stat.score_sum value.score;
    cnt = uint32_inc stat.cnt;
    status_hist =
        Map.put value.status (uint32_inc (count_of (Map.get value.status stat.status_hist)))
          stat.status_hist;
  }

  -- The loop over the metrics of one inference.
  unfoldable pub tally : GoMap GoString Metric → GoMap GoString ValueStat → GoMap GoString ValueStat
  tally [] statmap = statmap
  tally ((name, metric) ∷ metrics) statmap =
      tally metrics
        (Map.put name (add_vote metric.value (stat_or_new (Map.get name statmap))) statmap)

-- The loop over `StatusHist`: the most frequent status, the more severe one of two as frequent.
unfoldable pub pick : GoMap Status ℕ → ℕ → Status → Status
pick [] maxcnt maxstatus = maxstatus
pick ((status, cnt) ∷ hist) maxcnt maxstatus = pick hist (if ltb maxcnt cnt then cnt else maxcnt) (
    if ltb maxcnt cnt
    then status
    else if nat_beq cnt maxcnt && ltb (number maxstatus) (number status)
    then status
    else maxstatus)

-- The variables of the loop of `InferPano`, and the views as `InferView` leaves them.
pub record PanoLoop : Type 0 where
  pub i : ℕ
  pub observers : List GoString
  pub statmap : GoMap GoString ValueStat
  pub pts : Option Timestamp
  pub workbook : GoMap GoString Inference
  pub views : GoMap GoString View

abbrev pub later_ts : Option Timestamp → Timestamp → Timestamp
later_ts none ts = ts
later_ts (some pts) ts = if ltb_ℤ (compare_timestamp pts ts) (pos 0) then ts else pts

module _ (ops : FloatOps) where
  -- What the body does with an inference, found in the workbook or just made.
  unfoldable pub absorb : Inference → PanoLoop → PanoLoop
  absorb inference l = record l {
    i = l.i + 1;
    pts = some (later_ts l.pts inference.observation.ts);
    statmap = tally ops inference.observation.metrics l.statmap;
  }

  unfoldable pub pano_body : GoString → View → PanoLoop → PanoLoop
  unfolding absorb
  pano_body observer view loop =
      let l = record loop { observers = set loop.observers loop.i observer } in
      elim (Map.get observer l.workbook) [
        | some inference ↦ absorb inference l
        | none ↦ elim (infer_view ops view) [
          | none ↦ l
          | some (inference, changed) ↦ absorb inference (record l {
            workbook = Map.put observer inference l.workbook;
            views = Map.put observer changed l.views;
          })
        ]
      ]

  unfoldable pub pano_loop : GoMap GoString View → PanoLoop → PanoLoop
  pano_loop [] l = l
  pano_loop ((observer, view) ∷ views) l = pano_loop views (pano_body observer view l)

  unfoldable pub decide_metric : GoString → ValueStat → Metric
  decide_metric name stat = record {
    name = name;
    value = record {
      status = pick stat.status_hist 0 healthy;
      score = ops.div stat.score_sum (ops.of_count stat.cnt);
    };
  }

  abbrev pub pano_start : Panorama → GoMap GoString Inference → PanoLoop
  pano_start pano workbook = record {
    i = 0;
    observers = replicate (length pano.views) [];
    statmap = [];
    pts = none;
    workbook = workbook;
    views = pano.views;
  }

  -- The inference, if there is any observation, with the workbook and the panorama afterwards.
  unfoldable pub infer_pano :
      Panorama → GoMap GoString Inference → Option Inference × GoMap GoString Inference × Panorama
  unfolding decide_metric
  infer_pano pano workbook =
      let l = pano_loop pano.views (pano_start pano workbook) in
      (
        elim l.pts [
          | none ↦ none
          | some ts ↦ some (record {
            subject = pano.subject;
            observers = l.observers;
            observation = record { ts = ts; metrics = Map.update_all decide_metric l.statmap };
          })
        ],
        l.workbook,
        record pano { views = l.views },
      )
