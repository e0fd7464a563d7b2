-- ===== src/Raw/History.antt =====
-- The raw store of store/raw.go against its promise: of every observer's reports about every
-- subject it keeps the ten latest, since the subject was last removed with its reports.
use panorama.Prelude.{
  Option, none, some, ◌∙◌, subst, Option-cases, ◌≡◌, refl, ap, sym, Bool, true, false, GoString,
  string_eq, List, [], ◌∷◌, arith, inl, inr, ◌||◌,
}
use panorama.Prelude.Map
use panorama.Prelude.Map.{GoMap, get-put, get-delete}
use panorama.Health.{Observation, Report}
use panorama.Raw.{
  Time, RawHealthStorage, max_report_per_view, new_raw_health_storage, watch_all, add_report,
  get_view,
}
use panorama.Raw.Bounded.{
  IsBounded, add_report-IsBounded, add_subject-IsBounded, remove_subject-IsBounded, new-IsBounded,
}
use panorama.Raw.Collect.{gc}
use panorama.Raw.Collect.Kept.{kept, length-kept-le}
use panorama.Raw.Collect.Whole.{
  kept_tenants, observations-kept_tenants, gc-Collected, EndsBounded, gc-EndsBounded,
}
use panorama.Timestamp.{Timestamp}
use panorama.Prelude.Int.{ℤ}
use panorama.Raw.Promise.{
  Call, adds, watches, unwatches, collects, left, step, run, History, note, notes, listed, Refines,
  IsRefined, fresh,
}
use panorama.Raw.Frame.{
  observations_of, observations-pushed, add_report_cases, get_view-add_subject, has-add_subject,
  has-remove_subject, has-add_report, get_view-remove_subject,
}
use panorama.Prelude.Window.{last, last-nil, last-short, length-last-le}
use panorama.Raw.Window.{push_observation-last}

watch-adds :
    (s : RawHealthStorage) (h : History) (report : Report) (filter : Bool) (now : Time)
    → Refines s h
    → (x : GoString)
    → Map.has x (add_report s report filter now).0.watchlist
      ≡ (note h (adds report filter)).watched x
watch-adds s h report filter now r x =
    ground (arith, has-add_report s report filter now x, r.watch x, r.watch report.subject)

views-adds :
    (s : RawHealthStorage) (h : History) (report : Report) (filter : Bool) (now : Time)
    → Refines s h
    → (x o : GoString)
    → observations_of (get_view (add_report s report filter now).0 o x)
      ≡ last max_report_per_view ((note h (adds report filter)).log x o)
views-adds s h report filter now r x o = elim (add_report_cases s report filter now) [
  | inl (out, e) ↦
      ground
        (arith, ap (λ p. observations_of (get_view p.0 o x)) e, r.watch report.subject, r.views x o)
  | inr (kept, _, views) ↦ ground (
    arith,
    views o x,
    observations-pushed report (get_view s report.observer report.subject),
    push_observation-last (h.log report.subject report.observer) report.observation,
    r.views x o,
    r.views report.subject report.observer,
    r.watch report.subject,
  )
]

collect-Refines :
    (s : RawHealthStorage) (h : History) (rule : Option Timestamp) (ttl_nanos : ℤ)
    → Refines s h
    → Refines
        (record s { tenants = kept_tenants rule ttl_nanos s.tenants })
        (record h { log = λ x o. kept rule ttl_nanos (last max_report_per_view (h.log x o)) })
collect-Refines s h rule ttl_nanos r = record {
  watch = r.watch;
  views = λ x o.
      let ten = last max_report_per_view (h.log x o) in
      observations-kept_tenants rule ttl_nanos s o x
      ∙ ap (kept rule ttl_nanos) (r.views x o)
      ∙ sym (
          last-short max_report_per_view (kept rule ttl_nanos ten) (
            omega (
              arith,
              length-kept-le rule ttl_nanos ten,
              length-last-le max_report_per_view (h.log x o),
            )));
}

collects-IsRefined :
    (s : RawHealthStorage) (h : History) (now : Time) (ttl_nanos : ℤ) (relative : Bool)
    (expire : Option Timestamp)
    → Refines s h
    → IsBounded s
    → IsRefined
        (step s now (collects ttl_nanos relative expire))
        (note h (collects ttl_nanos relative expire))
unfolding step
collects-IsRefined s h now ttl_nanos true expire r b =
    let (retired, e, counts) = gc-Collected s ttl_nanos true expire b in
    subst (λ outcome. IsRefined (left outcome) (note h (collects ttl_nanos true expire))) (sym e)
      (
        collect-Refines s h none ttl_nanos r,
        subst EndsBounded e (gc-EndsBounded s ttl_nanos true expire b),
      )
collects-IsRefined s h now ttl_nanos false none r b = unfold gc in (r, b)
collects-IsRefined s h now ttl_nanos false (some expire) r b =
    let (retired, e, counts) = gc-Collected s ttl_nanos false (some expire) b in
    subst (λ outcome. IsRefined (left outcome) (note h (collects ttl_nanos false (some expire))))
      (sym e)
      (
        collect-Refines s h (some expire) ttl_nanos r,
        subst EndsBounded e (gc-EndsBounded s ttl_nanos false (some expire) b),
      )

step-IsRefined :
    (s : RawHealthStorage) (h : History) (now : Time) (call : Call)
    → Refines s h
    → IsBounded s
    → IsRefined (step s now call) (note h call)
unfolding step
step-IsRefined s h now (adds report filter) r b = (
  record { watch = watch-adds s h report filter now r; views = views-adds s h report filter now r },
  add_report-IsBounded s report filter now b,
)
step-IsRefined s h now (watches subject) r b = (
  record {
    watch = λ x. ground (arith, has-add_subject s subject now x, r.watch x);
    views = λ x o. rw (get_view-add_subject s subject now o x) (r.views x o);
  },
  add_subject-IsBounded s subject now b,
)
step-IsRefined s h now (unwatches subject clean) r b = (
  record {
    watch = λ x. ground (arith, has-remove_subject s subject clean x, r.watch x);
    views = λ x o.
        rw (get_view-remove_subject s subject clean o x)
          (ground (arith, r.views x o, last-nil {A = Observation} max_report_per_view [] refl));
  },
  remove_subject-IsBounded s subject clean b,
)
step-IsRefined s h now (collects ttl_nanos relative expire) r b =
    collects-IsRefined s h now ttl_nanos relative expire r b

-- After any sequence of calls the store keeps its promise.
run-IsRefined :
    (calls : List (Time × Call)) (s : RawHealthStorage) (h : History)
    → Refines s h
    → IsBounded s
    → IsRefined (run s calls) (notes h calls)
unfolding run
run-IsRefined [] s h r b = (r, b)
run-IsRefined ((now, call) ∷ calls) s h r b =
    let done = step-IsRefined s h now call r b in
    elim (Option-cases (step s now call)) [
      | inl e ↦ absurd (subst (λ o. IsRefined o (note h call)) e done)
      | inr (s', e) ↦
          let kept_s : IsRefined (some s') (note h call) =
            subst (λ o. IsRefined o (note h call)) e done in
          rw (run, e) (run-IsRefined calls s' (note h call) kept_s.0 kept_s.1)
    ]

has-watch_all :
    (subjects : List GoString) (now : Time) (m : GoMap GoString Time) (x : GoString)
    → Map.has x (watch_all subjects now m) ≡ listed x subjects || Map.has x m
unfolding watch_all
has-watch_all [] now m x = refl
has-watch_all (subject ∷ subjects) now m x =
    ground (arith, has-watch_all subjects now (Map.put subject now m) x, get-put subject x now m)

new-Refines :
    (subjects : List GoString) (now : Time)
    → Refines (new_raw_health_storage subjects now) (fresh subjects)
unfolding new_raw_health_storage get_view Map.get
new-Refines subjects now = record {
  watch = λ x. ground (arith, has-watch_all subjects now [] x);
  views = λ x o. sym (last-nil {A = Observation} max_report_per_view [] refl);
}

-- Whatever AddReport, AddSubject, RemoveSubject and GC calls a new store of `NewRawHealthStorage`
-- serves, with no inference between them, none of them panics, and the store watches exactly the
-- subjects that its calls leave watched. The view of every observer and subject holds the ten latest
-- observations of a log, to which each accepted observation is appended, which a removal of the
-- subject with its reports empties, and of whose ten latest a collection leaves those to be kept.
-- Every observation has a timestamp.
pub run_new-Refines :
    (subjects : List GoString) (start : Time) (calls : List (Time × Call))
    → IsRefined (run (new_raw_health_storage subjects start) calls) (notes (fresh subjects) calls)
run_new-Refines subjects start calls =
    run-IsRefined calls _ _ (new-Refines subjects start) (new-IsBounded subjects start)
