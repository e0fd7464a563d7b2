-- ===== src/Raw/Frame.antt =====
-- What `AddReport`, `AddSubject` and `RemoveSubject` of store/raw.go leave in each view.
use panorama.Prelude.{
  ◌≡◌, refl, ◌==◌, ◌∙◌, ◌⊎◌, Option, none, some, Bool, true, false, not, ◌&&◌, GoString, string_eq,
  str_beq_iff, List, [], arith, if◌then◌else◌, Option-cases, Bool-cases, inl, inr,
}
use panorama.Prelude.Map
use panorama.Prelude.Map.{get-put, get-delete}
use panorama.Health.{Observation, Report, View, Panorama}
use panorama.Raw.{
  Time, ignored, accepted, RawHealthStorage, add_subject, remove_subject, tenant_or_new,
  view_or_new, push_observation, record_report, accept_report, add_report, get_view,
}

abbrev pub observations_of : Option View → List Observation
observations_of none = []
observations_of (some view) = view.observations

-- The view of the report's subject and observer, with the report's observation pushed.
abbrev pub pushed : Report → Option View → View
pushed report old = record (view_or_new report old) {
  observations = push_observation (view_or_new report old).observations report.observation;
}

pub observations-pushed :
    (report : Report) (old : Option View)
    → (pushed report old).observations ≡ push_observation (observations_of old) report.observation
unfolding view_or_new
observations-pushed report none = refl
observations-pushed report (some view) = refl

views-record_report :
    (pano : Panorama) (report : Report) (observer : GoString)
    → Map.get observer (record_report pano report).views ≡ (
        if report.observer == observer
        then some (pushed report (Map.get report.observer pano.views))
        else Map.get observer pano.views)
unfolding record_report
views-record_report pano report observer = get-put report.observer observer _ pano.views

-- A new panorama has no view.
no_tenant :
    (report : Report) (observer : GoString)
    → Map.get observer (tenant_or_new report none).views ≡ none
unfolding tenant_or_new Map.get
no_tenant report observer = refl

-- Only the view of the report's subject and observer changes.
pub get_view-accept_report :
    (s : RawHealthStorage) (report : Report) (observer subject : GoString)
    → get_view (accept_report s report) observer subject ≡ (
        if (report.subject == subject) && (report.observer == observer)
        then some (pushed report (get_view s report.observer report.subject))
        else get_view s observer subject)
unfolding accept_report get_view
get_view-accept_report s report observer subject =
    let old = tenant_or_new report (Map.get report.subject s.tenants) in
    ground (
      arith,
      get-put report.subject subject (record_report old report) s.tenants,
      views-record_report old report observer,
      str_beq_iff report.subject subject,
      no_tenant report observer,
      no_tenant report report.observer,
    )

-- A report is ignored exactly when it is filtered and its subject is not watched.
abbrev pub drops : RawHealthStorage → Report → Bool → Bool
drops s report filter = filter && not (Map.has report.subject s.watchlist)

-- The storage once the report's subject is watched.
abbrev pub watching : RawHealthStorage → Report → Time → RawHealthStorage
watching s report now =
    if Map.has report.subject s.watchlist
    then s
    else record s { watchlist = Map.put report.subject now s.watchlist }

pub add_report_lem :
    (s : RawHealthStorage) (report : Report) (filter : Bool) (now : Time)
    → add_report s report filter now ≡ (
        if drops s report filter
        then (s, ignored)
        else (accept_report (watching s report now) report, accepted))
unfolding add_report
add_report_lem s report filter now = elim (Option-cases (Map.get report.subject s.watchlist)) [
  | inl e ↦ rw (e, add_report) (ground arith)
  | inr (t, e) ↦ rw (e, add_report) (ground arith)
]

get_view-watching :
    (s : RawHealthStorage) (report : Report) (now : Time) (observer subject : GoString)
    → get_view (watching s report now) observer subject ≡ get_view s observer subject
unfolding get_view
get_view-watching s report now observer subject = ground arith

-- `AddReport` ignores a report exactly if it is filtered and its subject is not watched, and then
-- changes nothing. It accepts every other report: the view of its observer and subject has the
-- observation pushed, and no other view changes.
pub add_report_cases :
    (s : RawHealthStorage) (report : Report) (filter : Bool) (now : Time)
    → ((drops s report filter ≡ true) × (add_report s report filter now ≡ (s, ignored)))
      ⊎ ((drops s report filter ≡ false)
          × ((add_report s report filter now).1 ≡ accepted)
          × ((observer subject : GoString)
              → get_view (add_report s report filter now).0 observer subject ≡ (
                  if (report.subject == subject) && (report.observer == observer)
                  then some (pushed report (get_view s report.observer report.subject))
                  else get_view s observer subject)))
add_report_cases s report filter now = elim (Bool-cases (drops s report filter)) [
  | inl e ↦ inl (e, add_report_lem s report filter now ∙ rw e)
  | inr e ↦
      rw (add_report_lem s report filter now, e)
        (inr (
          refl,
          refl,
          λ observer subject.
              rw
                (
                  ← get_view-watching s report now observer subject,
                  ← get_view-watching s report now report.observer report.subject,
                )
                (get_view-accept_report (watching s report now) report observer subject),
        ))
]

pub get_view-add_subject :
    (s : RawHealthStorage) (name : GoString) (now : Time) (observer subject : GoString)
    → get_view (add_subject s name now).0 observer subject ≡ get_view s observer subject
unfolding add_subject get_view
get_view-add_subject s name now observer subject = ground arith

pub get_view-remove_subject :
    (s : RawHealthStorage) (name : GoString) (clean : Bool) (observer subject : GoString)
    → get_view (remove_subject s name clean).0 observer subject
      ≡ (if clean && (name == subject) then none else get_view s observer subject)
unfolding remove_subject get_view
get_view-remove_subject s name clean observer subject =
    ground (arith, get-delete name subject s.tenants, str_beq_iff name subject)

pub has-add_subject :
    (s : RawHealthStorage) (name : GoString) (now : Time) (x : GoString)
    → Map.has x (add_subject s name now).0.watchlist
      ≡ (if name == x then true else Map.has x s.watchlist)
unfolding add_subject
has-add_subject s name now x = ground (arith, get-put name x now s.watchlist, str_beq_iff name x)

pub has-remove_subject :
    (s : RawHealthStorage) (name : GoString) (clean : Bool) (x : GoString)
    → Map.has x (remove_subject s name clean).0.watchlist
      ≡ (if name == x then false else Map.has x s.watchlist)
unfolding remove_subject
has-remove_subject s name clean x = ground (arith, get-delete name x s.watchlist)

pub has-add_report :
    (s : RawHealthStorage) (report : Report) (filter : Bool) (now : Time) (x : GoString)
    → Map.has x (add_report s report filter now).0.watchlist ≡ (
        if drops s report filter
        then Map.has x s.watchlist
        else if report.subject == x
        then true
        else Map.has x s.watchlist)
unfolding add_report
has-add_report s report filter now x =
    ground (arith, get-put report.subject x now s.watchlist, str_beq_iff report.subject x)
