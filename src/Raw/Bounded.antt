-- ===== src/Raw/Bounded.antt =====
-- The bound of store/raw.go on its views, kept by every operation on the table.
use panorama.Prelude.{
  ◌≤◌, ◌≡◌, refl, true, false, GoString, string_eq, Option, none, some, List, [], ◌∷◌, Bool, length,
  length-append, arith, Option-cases, Bool-cases, inl, inr,
}
use panorama.Prelude.Map
use panorama.Prelude.Map.{
  GoMap, AllValues, get-AllValues, put-AllValues, delete-AllValues, Distinct, put-Distinct,
  delete-Distinct,
}
use panorama.Health.{Observation, Report, View, Panorama}
use panorama.Raw.{
  Time, RawHealthStorage, max_report_per_view, new_raw_health_storage, add_subject, remove_subject,
  tenant_or_new, view_or_new, push_observation, record_report, accept_report, add_report,
}
use panorama.Raw.Frame.{add_report_lem, drops, watching}

abbrev pub IsBoundedView : View → Type 0
IsBoundedView view = length view.observations ≤ max_report_per_view

abbrev pub IsBoundedPanorama : Panorama → Type 0
IsBoundedPanorama pano = AllValues IsBoundedView pano.views

-- Every view of every panorama holds at most MaxReportPerView observations, and each subject has
-- one panorama.
abbrev pub IsBounded : RawHealthStorage → Type 0
IsBounded s = AllValues IsBoundedPanorama s.tenants × Distinct s.tenants

length-push_observation-le :
    (obs : List Observation) (ob : Observation)
    → length obs ≤ max_report_per_view
    → length (push_observation obs ob) ≤ max_report_per_view
unfolding push_observation
length-push_observation-le [] ob h = ground arith
length-push_observation-le (val ∷ obs) ob h = ground (arith, length-append obs (ob ∷ []))

view_or_new-IsBounded :
    (report : Report) (old : Option View)
    → ((view : View) → old ≡ some view → IsBoundedView view)
    → IsBoundedView (view_or_new report old)
unfolding view_or_new
view_or_new-IsBounded report none h = omega arith
view_or_new-IsBounded report (some view) h = h view refl

tenant_or_new-IsBounded :
    (report : Report) (old : Option Panorama)
    → ((pano : Panorama) → old ≡ some pano → IsBoundedPanorama pano)
    → IsBoundedPanorama (tenant_or_new report old)
unfolding tenant_or_new
tenant_or_new-IsBounded report none h = tt
tenant_or_new-IsBounded report (some pano) h = h pano refl

record_report-IsBounded :
    (pano : Panorama) (report : Report)
    → IsBoundedPanorama pano
    → IsBoundedPanorama (record_report pano report)
unfolding record_report
record_report-IsBounded pano report h =
    put-AllValues IsBoundedView report.observer _ pano.views
      (length-push_observation-le _ report.observation (
        view_or_new-IsBounded report (Map.get report.observer pano.views)
          (λ view e. get-AllValues IsBoundedView report.observer view pano.views h e)))
      h

accept_report-IsBounded :
    (s : RawHealthStorage) (report : Report) → IsBounded s → IsBounded (accept_report s report)
unfolding accept_report
accept_report-IsBounded s report h = (
  put-AllValues IsBoundedPanorama report.subject _ s.tenants
      (record_report-IsBounded (tenant_or_new report (Map.get report.subject s.tenants)) report (
        tenant_or_new-IsBounded report (Map.get report.subject s.tenants)
          (λ pano e. get-AllValues IsBoundedPanorama report.subject pano s.tenants h.0 e)))
      h.0,
  put-Distinct report.subject _ s.tenants h.1,
)

tenants-watching :
    (s : RawHealthStorage) (report : Report) (now : Time)
    → (watching s report now).tenants ≡ s.tenants
tenants-watching s report now = ground arith

pub add_report-IsBounded :
    (s : RawHealthStorage) (report : Report) (filter : Bool) (now : Time)
    → IsBounded s
    → IsBounded (add_report s report filter now).0
add_report-IsBounded s report filter now h =
    rw (add_report_lem s report filter now) (elim (Bool-cases (drops s report filter)) [
      | inl e ↦ rw e h
      | inr e ↦ rw e (
          accept_report-IsBounded (watching s report now) report
            (rw (tenants-watching s report now) h))
    ])

pub add_subject-IsBounded :
    (s : RawHealthStorage) (subject : GoString) (now : Time)
    → IsBounded s
    → IsBounded (add_subject s subject now).0
unfolding add_subject
add_subject-IsBounded s subject now h = elim (Option-cases (Map.get subject s.watchlist)) [
  | inl e ↦ rw (add_subject, e) h
  | inr (t, e) ↦ rw (add_subject, e) h
]

pub remove_subject-IsBounded :
    (s : RawHealthStorage) (subject : GoString) (clean : Bool)
    → IsBounded s
    → IsBounded (remove_subject s subject clean).0
unfolding remove_subject
remove_subject-IsBounded s subject true h = (
  delete-AllValues IsBoundedPanorama subject s.tenants h.0,
  delete-Distinct subject s.tenants h.1,
)
remove_subject-IsBounded s subject false h = h

pub new-IsBounded :
    (subjects : List GoString) (now : Time) → IsBounded (new_raw_health_storage subjects now)
unfolding new_raw_health_storage
new-IsBounded subjects now = (tt, tt)
