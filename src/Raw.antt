-- ===== src/Raw.antt =====
-- store/raw.go: the table of raw reports. A method runs atomically, under its locks; `time.Now()`
-- and the result of `ptypes.TimestampProto` are arguments.
pub mod Frame
pub mod Window
pub mod History
pub mod Promise
pub mod Latest
pub mod Bounded
pub mod Collect
use panorama.Prelude.{
  ℕ, zero, suc, ◌+◌, ◌-◌, ◌%◌, ◌^◌, ◌≡◌, ◌==◌, GoString, string_eq, Option, none, some, List, [],
  ◌∷◌, ◌++◌, Bool, true, false, not, ltb, leb, length, drop, get_elem?, if◌then◌else◌,
}
use panorama.Prelude.Map
use panorama.Prelude.Map.{GoMap}
use panorama.Prelude.Int.{ℤ, pos, ltb_ℤ}
use panorama.Timestamp.{Timestamp, compare_timestamp, subtract_timestamp}
use panorama.Health.{Observation, Report, View, Panorama}

abbrev pub max_report_per_view : ℕ
max_report_per_view = 10

-- A `time.Time`, in nanoseconds.
abbrev pub Time : Type 0
Time = ℕ

pub data AddResult : Type 0 where
  ignored accepted failed : AddResult

-- `has_db` says whether `db` is set; `db_reports` lists the reports that were handed to a
-- goroutine for `InsertReport`, newest first.
pub record RawHealthStorage : Type 0 where
  pub tenants : GoMap GoString Panorama
  pub watchlist : GoMap GoString Time
  pub has_db : Bool
  pub db_reports : List Report

watch_all : List GoString → Time → GoMap GoString Time → GoMap GoString Time
watch_all [] now m = m
watch_all (subject ∷ subjects) now m = watch_all subjects now (Map.put subject now m)

unfoldable pub new_raw_health_storage : List GoString → Time → RawHealthStorage
unfolding watch_all
new_raw_health_storage subjects now = record {
  tenants = [];
  watchlist = watch_all subjects now [];
  has_db = false;
  db_reports = [];
}

unfoldable pub set_db : RawHealthStorage → RawHealthStorage
set_db s = record s { has_db = true }

unfoldable pub add_subject : RawHealthStorage → GoString → Time → RawHealthStorage × Bool
add_subject s subject now = elim (Map.get subject s.watchlist) [
  | none ↦ (record s { watchlist = Map.put subject now s.watchlist }, true)
  | some t ↦ (s, false)
]

unfoldable pub remove_subject : RawHealthStorage → GoString → Bool → RawHealthStorage × Bool
remove_subject s subject clean = (
  record s {
    watchlist = Map.delete subject s.watchlist;
    tenants = if clean then Map.delete subject s.tenants else s.tenants;
  },
  Map.has subject s.watchlist,
)

unfoldable pub get_subjects : RawHealthStorage → GoMap GoString Time
get_subjects s = s.watchlist

-- The panorama of the report's subject, a new one if there is none.
unfoldable pub tenant_or_new : Report → Option Panorama → Panorama
tenant_or_new report (some pano) = pano
tenant_or_new report none = record { subject = report.subject; views = [] }

unfoldable pub view_or_new : Report → Option View → View
view_or_new report (some view) = view
view_or_new report none = record {
  observer = report.observer;
  subject = report.subject;
  observations = [];
}

-- append, and drop the oldest observation if there are more than MaxReportPerView
unfoldable pub push_observation : List Observation → Observation → List Observation
push_observation obs ob =
    let longer = obs ++ ob ∷ [] in
    if ltb max_report_per_view (length longer) then drop 1 longer else longer

unfoldable pub record_report : Panorama → Report → Panorama
unfolding view_or_new push_observation
record_report pano report =
    let view = view_or_new report (Map.get report.observer pano.views) in
    record pano {
      views =
          Map.put report.observer
            (record view { observations = push_observation view.observations report.observation })
            pano.views;
    }

-- What `AddReport` does once the subject is on the watch list.
unfoldable pub accept_report : RawHealthStorage → Report → RawHealthStorage
unfolding tenant_or_new record_report
accept_report s report = record s {
  tenants =
      Map.put report.subject
        (record_report (tenant_or_new report (Map.get report.subject s.tenants)) report) s.tenants;
  db_reports = if s.has_db then report ∷ s.db_reports else s.db_reports;
}

unfoldable pub add_report : RawHealthStorage → Report → Bool → Time → RawHealthStorage × AddResult
unfolding accept_report
add_report s report filter now = elim (Map.get report.subject s.watchlist) [
  | some t ↦ (accept_report s report, accepted)
  | none ↦ if filter then (s, ignored) else (
    accept_report (record s { watchlist = Map.put report.subject now s.watchlist }) report,
    accepted,
  )
]

unfoldable pub get_panorama : RawHealthStorage → GoString → Option Panorama
get_panorama s subject = Map.get subject s.tenants

unfoldable pub get_view : RawHealthStorage → GoString → GoString → Option View
get_view s observer subject = elim (Map.get subject s.tenants) [
  | none ↦ none
  | some pano ↦ Map.get observer pano.views
]

-- The loop variables `who` and `recent_ob` of `GetLatestReport`, with `max_ts` its timestamp;
-- none while `first` holds.
abbrev pub Best : Type 0
Best = Option (GoString × Observation)

unfoldable pub newer : GoString → Observation → Best → Best
newer observer val none = some (observer, val)
newer observer val (some (who, recent)) =
    if ltb_ℤ (compare_timestamp recent.ts val.ts) (pos 0)
    then some (observer, val)
    else some (who, recent)

unfoldable pub latest_in_view : GoString → List Observation → Best → Best
unfolding newer
latest_in_view observer [] best = best
latest_in_view observer (val ∷ obs) best = latest_in_view observer obs (newer observer val best)

unfoldable pub latest_in_views : GoMap GoString View → Best → Best
latest_in_views [] best = best
latest_in_views ((observer, view) ∷ views) best =
    latest_in_views views (latest_in_view observer view.observations best)

unfoldable pub best_report : GoString → Best → Option Report
best_report subject none = none
best_report subject (some (who, recent)) =
    some (record { observer = who; subject = subject; observation = recent })

unfoldable pub get_latest_report : RawHealthStorage → GoString → Option Report
unfolding best_report
get_latest_report s subject = elim (Map.get subject s.tenants) [
  | none ↦ none
  | some pano ↦ best_report subject (latest_in_views pano.views none)
]

unfoldable pub dump_panorama : RawHealthStorage → GoMap GoString Panorama
dump_panorama s = s.tenants
