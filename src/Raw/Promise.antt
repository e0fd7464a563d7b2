-- ===== src/Raw/Promise.antt =====
-- The calls of the raw store of store/raw.go, and what it promises of its subjects and its views.
use panorama.Prelude.{
  ℕ, Option, none, some, ◌≡◌, ◌==◌, Bool, true, false, not, ◌&&◌, GoString, string_eq, List, [],
  ◌∷◌, ◌++◌, if◌then◌else◌, ◌||◌,
}
use panorama.Prelude.Map
use panorama.Prelude.Map.{GoMap, get-put, get-delete}
use panorama.Health.{Observation, Report}
use panorama.Raw.{
  Time, RawHealthStorage, max_report_per_view, add_subject, remove_subject, add_report, get_view,
}
use panorama.Raw.Bounded.{IsBounded}
use panorama.Raw.Collect.{gc}
use panorama.Raw.Collect.Kept.{kept}
use panorama.Raw.Collect.Whole.{governs}
use panorama.Timestamp.{Timestamp}
use panorama.Prelude.Int.{ℤ}
use panorama.Raw.Frame.{observations_of}
use panorama.Prelude.Window.{last}

pub data Call : Type 0 where
  adds : Report → Bool → Call
  watches : GoString → Call
  unwatches : GoString → Bool → Call
  collects : ℤ → Bool → Option Timestamp → Call

abbrev pub left : Option (RawHealthStorage × Option (GoMap GoString ℕ)) → Option RawHealthStorage
left none = none
left (some (s, retired)) = some s

-- The store after a call: none for a panic.
unfoldable pub step : RawHealthStorage → Time → Call → Option RawHealthStorage
step s now (adds report filter) = some (add_report s report filter now).0
step s now (watches subject) = some (add_subject s subject now).0
step s now (unwatches subject clean) = some (remove_subject s subject clean).0
step s now (collects ttl_nanos relative expire) = left (gc s ttl_nanos relative expire)

-- Calls with their times, in the order in which they take the lock.
unfoldable pub run : RawHealthStorage → List (Time × Call) → Option RawHealthStorage
unfolding step
run s [] = some s
run s ((now, call) ∷ calls) = elim (step s now call) [ none ↦ none | some s' ↦ run s' calls ]

-- The promise: who is watched, and for each subject and observer the accepted observations that no
-- removal of the subject and no collection has taken away.
pub record History : Type 0 where
  pub watched : GoString → Bool
  pub log : GoString → GoString → List Observation

abbrev pub note : History → Call → History
note h (adds report filter) = if filter && not (h.watched report.subject) then h else record {
  watched = λ x. if report.subject == x then true else h.watched x;
  log = λ x o.
      if (report.subject == x) && (report.observer == o)
      then h.log report.subject report.observer ++ report.observation ∷ []
      else h.log x o;
}
note h (watches subject) = record h { watched = λ x. if subject == x then true else h.watched x }
note h (unwatches subject clean) = record {
  watched = λ x. if subject == x then false else h.watched x;
  log = λ x o. if clean && (subject == x) then [] else h.log x o;
}
note h (collects ttl_nanos relative expire) = elim (governs relative expire) [
  | none ↦ h
  | some rule ↦ record h { log = λ x o. kept rule ttl_nanos (last max_report_per_view (h.log x o)) }
]

abbrev pub notes : History → List (Time × Call) → History
notes h [] = h
notes h ((now, call) ∷ calls) = notes (note h call) calls

abbrev pub listed : GoString → List GoString → Bool
listed x [] = false
listed x (subject ∷ subjects) = listed x subjects || subject == x

pub record Refines (s : RawHealthStorage) (h : History) : Type 0 where
  pub watch : (x : GoString) → Map.has x s.watchlist ≡ h.watched x
  pub views :
      (x o : GoString) → observations_of (get_view s o x) ≡ last max_report_per_view (h.log x o)

-- A store that there is, that keeps its promise, and whose views are within their bound.
abbrev pub IsRefined : Option RawHealthStorage → History → Type 0
IsRefined none h = ⊥
IsRefined (some s) h = Refines s h × IsBounded s

-- A new store: the given subjects are watched, and there is no observation.
abbrev pub fresh : List GoString → History
fresh subjects = record { watched = λ x. listed x subjects; log = λ x o. [] }
