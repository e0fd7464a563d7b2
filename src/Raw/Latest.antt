-- ===== src/Raw/Latest.antt =====
-- `GetLatestReport` of store/raw.go.
use panorama.Prelude.{
  ◌≡◌, refl, Option, none, some, List, [], ◌∷◌, All, GoString, string_eq, arith, Bool-cases, inl,
  inr,
}
use panorama.Prelude.Map
use panorama.Prelude.Map.{GoMap}
use panorama.Prelude.Int.{pos, ltb_ℤ, ◌≤ℤ◌, ltb_ℤ_iff}
use panorama.Timestamp.{Timestamp, IsTimestamp, compare_timestamp, instant}
use panorama.Timestamp.Order.{compare_timestamp-lt_iff}
use panorama.Health.{Observation, Report, View, Panorama}
use panorama.Raw.{
  RawHealthStorage, Best, newer, latest_in_view, latest_in_views, best_report, get_latest_report,
}

abbrev IsDated : Best → Type 0
IsDated none = Unit
IsDated (some (who, recent)) = IsTimestamp recent.ts

-- The timestamp is no later than the best observation.
abbrev AtMost : Timestamp → Best → Type 0
AtMost ts none = ⊥
AtMost ts (some (who, recent)) = instant ts ≤ℤ instant recent.ts

abbrev pub AreDated : List Observation → Type 0
AreDated = All (λ val. IsTimestamp val.ts)

-- Every observation of every view has a valid timestamp.
abbrev pub AreDatedViews : GoMap GoString View → Type 0
AreDatedViews = All (λ e. AreDated e.1.observations)

-- What a step from one best observation to another one keeps.
record Grows (best after : Best) : Type 0 where
  dated : IsDated after
  keeps : (ts : Timestamp) → AtMost ts best → AtMost ts after

Grows-trans : (a b c : Best) → Grows a b → Grows b c → Grows a c
Grows-trans a b c g h = record { dated = h.dated; keeps = λ ts x. h.keeps ts (g.keeps ts x) }

newer-Grows :
    (observer : GoString) (val : Observation) (best : Best)
    → IsTimestamp val.ts
    → IsDated best
    → Grows best (newer observer val best) × AtMost val.ts (newer observer val best)
unfolding newer
newer-Grows observer val none v d = (record { dated = v; keeps = λ ts x. absurd x }, omega arith)
newer-Grows observer val (some (who, recent)) v d =
    let order = compare_timestamp-lt_iff recent.ts val.ts d v in
    let test = ltb_ℤ_iff (compare_timestamp recent.ts val.ts) (pos 0) in
    elim (Bool-cases (ltb_ℤ (compare_timestamp recent.ts val.ts) (pos 0))) [
      | inl e ↦
          let later = order.0 (test.0 e) in
          rw (newer, e) (record { dated = v; keeps = λ ts x. omega arith }, omega arith)
      | inr e ↦
          rw (newer, e) (record { dated = d; keeps = λ ts x. x }, ground (arith, order, test, e))
    ]

latest_in_view-Grows :
    (observer : GoString) (obs : List Observation) (best : Best)
    → AreDated obs
    → IsDated best
    → Grows best (latest_in_view observer obs best)
      × All (λ val. AtMost val.ts (latest_in_view observer obs best)) obs
unfolding latest_in_view
latest_in_view-Grows observer [] best a d = (record { dated = d; keeps = λ ts x. x }, tt)
latest_in_view-Grows observer (val ∷ obs) best a d =
    let (g, top) = newer-Grows observer val best a.0 d in
    let (h, all) = latest_in_view-Grows observer obs (newer observer val best) a.1 g.dated in
    (Grows-trans _ _ _ g h, (h.keeps val.ts top, all))

All-keeps :
    (best after : Best) (obs : List Observation)
    → Grows best after
    → All (λ val. AtMost val.ts best) obs
    → All (λ val. AtMost val.ts after) obs
All-keeps best after [] g a = tt
All-keeps best after (val ∷ obs) g a = (g.keeps val.ts a.0, All-keeps best after obs g a.1)

latest_in_views-Grows :
    (views : GoMap GoString View) (best : Best)
    → AreDatedViews views
    → IsDated best
    → Grows best (latest_in_views views best)
      × All (λ e. All (λ val. AtMost val.ts (latest_in_views views best)) e.1.observations) views
unfolding latest_in_views
latest_in_views-Grows [] best a d = (record { dated = d; keeps = λ ts x. x }, tt)
latest_in_views-Grows ((observer, view) ∷ views) best a d =
    let (g, here) = latest_in_view-Grows observer view.observations best a.0 d in
    let (h, there) = latest_in_views-Grows views _ a.1 g.dated in
    (Grows-trans _ _ _ g h, (All-keeps _ _ view.observations h here, there))

-- No observation of any view is later than the report.
abbrev pub IsLatest : GoMap GoString View → Option Report → Type 0
IsLatest views none = All (λ e. e.1.observations ≡ []) views
IsLatest views (some report) =
    All (λ e. All (λ val. instant val.ts ≤ℤ instant report.observation.ts) e.1.observations) views

empty_views :
    (views : GoMap GoString View)
    → All (λ e. All (λ val. AtMost val.ts none) e.1.observations) views
    → All (λ e. e.1.observations ≡ []) views
empty_views [] a = tt
empty_views ((observer, view) ∷ views) a = (empty view.observations a.0, empty_views views a.1)
  where
    empty : (obs : List Observation) → All (λ val. AtMost val.ts none) obs → obs ≡ []
    empty [] h = refl
    empty (val ∷ obs) h = absurd h.0

best_report-IsLatest :
    (subject : GoString) (views : GoMap GoString View) (best : Best)
    → All (λ e. All (λ val. AtMost val.ts best) e.1.observations) views
    → IsLatest views (best_report subject best)
unfolding best_report
best_report-IsLatest subject views none a = empty_views views a
best_report-IsLatest subject views (some (who, recent)) a = a

-- For a subject with valid timestamps no observation of any view is later than the report that
-- `GetLatestReport` returns, and if it returns none, no view has an observation.
pub get_latest_report-IsLatest :
    (s : RawHealthStorage) (subject : GoString) (pano : Panorama)
    → Map.get subject s.tenants ≡ some pano
    → AreDatedViews pano.views
    → IsLatest pano.views (get_latest_report s subject)
unfolding get_latest_report
get_latest_report-IsLatest s subject pano e d =
    rw (get_latest_report, e)
      (best_report-IsLatest subject pano.views (latest_in_views pano.views none)
        (latest_in_views-Grows pano.views none d tt).1)
