-- ===== src/Service/Reached.antt =====
-- Every server that a new one of service/service.go can become.
use panorama.Prelude.{
  refl, subst, string_eq, Option, List, ◌++◌, Bool, true, false, arith, if◌then◌else◌, Option-cases,
  Bool-cases, inl, inr,
}
use panorama.Prelude.Map
use panorama.Prelude.Map.{GoMap}
use panorama.Prelude.Int.{ℤ}
use panorama.Timestamp.{Timestamp}
use panorama.Health.{Report}
use panorama.Raw
use panorama.Raw.{RawHealthStorage, Time}
use panorama.Raw.Bounded.{add_subject-IsBounded, remove_subject-IsBounded, new-IsBounded}
use panorama.Raw.Collect.{gc}
use panorama.Raw.Collect.Whole.{EndsBounded, Collected, governs, gc-EndsBounded, gc-Collected}
use panorama.Majority.{FloatOps}
use panorama.Inferences
use panorama.Inferences.{HealthInferenceStorage}
use panorama.Inferences.Results.{IsPaired, turn-IsPaired}
use panorama.Inferences.Bounded.{turn-IsBounded}
use panorama.Exchange.{Network, propagate, subscribe, unsubscribe}
use panorama.Exchange.Wf.{propagate_all-IsWf, ping_all-IsWf, new-IsWf}
use panorama.Db.{Registration}
use panorama.Service.{
  HealthGServer, HealthServerConfig, Task, analyze, propagates, subscribes, unsubscribes,
  new_health_g_server, start, stop, learn_report, observe, stop_observing,
}
use panorama.Service.Tasks.{release_held, analyze_report, run_task, infer_retired, collect}
use panorama.Service.Steps.{
  Step, registers, submits, learns, observes, stops_observing, runs, infers, collects, starts,
  stops, Reachable, new, next,
}
use panorama.Service.Invariant.{
  IsInvariant, Keeps, register-IsInvariant, submit_report-IsInvariant, learn_by_kind-IsInvariant,
  release_held-IsInvariant, with_storage, with_exchange, with_inference,
  infer_report_async-IsPaired, infer_retired-IsPaired,
}

analyze_report-Keeps :
    (s : HealthGServer) (report : Report) (check_hold : Bool) (now : Time)
    → IsInvariant s
    → Keeps (analyze_report s report check_hold now)
unfolding analyze_report
analyze_report-Keeps s report check_hold now v =
    let s' = if check_hold then release_held s report.subject now else s in
    let v' : IsInvariant s' = released check_hold in
    elim (Option-cases (Inferences.infer_report_async s'.inference report)) [
      | inl e ↦ rw (analyze_report, e) tt
      | inr (inference, e) ↦
          rw (analyze_report, e)
            (with_inference s' inference v'
              (infer_report_async-IsPaired s'.inference inference report v'.paired e))
    ]
  where
    released : (b : Bool) → IsInvariant (if b then release_held s report.subject now else s)
    released true = release_held-IsInvariant s report.subject now v
    released false = v

run_task-Keeps :
    (net : Network) (s : HealthGServer) (task : Task) (now : Time)
    → IsInvariant s
    → Keeps (run_task net s task now)
unfolding run_task propagate subscribe unsubscribe
run_task-Keeps net s (analyze report check_hold) now v =
    analyze_report-Keeps s report check_hold now v
run_task-Keeps net s (propagates report) now v =
    with_exchange s _ v (propagate_all-IsWf net s.exchange _ v.apart)
run_task-Keeps net s (subscribes subject) now v =
    with_exchange s _ v (propagate_all-IsWf net s.exchange _ v.apart)
run_task-Keeps net s (unsubscribes subject) now v =
    with_exchange s _ v (propagate_all-IsWf net s.exchange _ v.apart)

collect-Keeps :
    (s : HealthGServer) (gc_threshold : ℤ) (gc_relative : Bool) (expire : Option Timestamp)
    → IsInvariant s
    → Keeps (collect s gc_threshold gc_relative expire)
unfolding collect
collect-Keeps s gc_threshold gc_relative expire v =
    elim (Option-cases (gc s.storage gc_threshold gc_relative expire)) [
      | inl e ↦ rw (collect, e) tt
      | inr ((storage, retired), e) ↦
          let ended =
            subst EndsBounded e
              (gc-EndsBounded s.storage gc_threshold gc_relative expire v.bounded) in
          elim (Option-cases retired) [
            | inl f ↦ rw (collect, e, f) (with_storage s storage s.tasks s.hold_buffer v ended)
            | inr (counts, f) ↦ elim (Option-cases (infer_retired s.inference counts)) [
              | inl g ↦ rw (collect, e, f, g) tt
              | inr (inference, g) ↦
                  rw (collect, e, f, g)
                    (with_inference (record s { storage = storage }) inference
                      (with_storage s storage s.tasks s.hold_buffer v ended)
                      (infer_retired-IsPaired counts s.inference inference v.paired g))
            ]
          ]
    ]

start-Keeps :
    (net : Network) (s : HealthGServer) (opened : Bool)
    (query : Option (List (Option Registration)))
    → IsInvariant s
    → Keeps (start net s opened query)
unfolding start Raw.set_db Inferences.set_db
start-Keeps net s true query v = elim (Bool-cases s.started) [
  | inl e ↦ rw (start, e) tt
  | inr e ↦
      rw (start, e)
        (record {
          bounded = v.bounded;
          paired = v.paired;
          once = v.once;
          apart = ping_all-IsWf net s.exchange v.apart;
        })
]
start-Keeps net s false query v = elim (Bool-cases s.started) [
  | inl e ↦ rw (start, e) tt
  | inr e ↦
      rw (start, e)
        (record {
          bounded = v.bounded;
          paired = v.paired;
          once = v.once;
          apart = ping_all-IsWf net s.exchange v.apart;
        })
]

stop-IsPaired : (s : HealthInferenceStorage) → IsPaired s → IsPaired (Inferences.stop s)
unfolding Inferences.stop
stop-IsPaired s h x = ground (arith, h x)

stop-Keeps : (s : HealthGServer) → IsInvariant s → Keeps (stop s)
unfolding stop
stop-Keeps s v = elim (Bool-cases s.started) [
  | inr e ↦ rw (stop, e) tt
  | inl e ↦
      rw (stop, e)
        (record {
          bounded = v.bounded;
          paired = stop-IsPaired s.inference v.paired;
          once = v.once;
          apart = v.apart;
        })
]

Step-IsInvariant :
    (ops : FloatOps) (s u : HealthGServer) → Step ops s u → IsInvariant s → IsInvariant u
unfolding learn_report observe stop_observing
Step-IsInvariant ops s u (registers module_name observer now e) v =
    rw e (register-IsInvariant s module_name observer now v)
Step-IsInvariant ops s u (submits handle report now e) v =
    rw e (submit_report-IsInvariant s handle report now v)
Step-IsInvariant ops s u (learns request now e) v =
    rw e (learn_by_kind-IsInvariant request.kind s request.source.id request.report now v)
Step-IsInvariant ops s u (observes subject now e) v =
    rw e
      (with_storage s _ _ s.hold_buffer v (add_subject-IsBounded s.storage subject now v.bounded))
Step-IsInvariant ops s u (stops_observing subject e) v =
    rw e (
      with_storage s _ _ s.hold_buffer v
        (remove_subject-IsBounded s.storage subject true v.bounded))
Step-IsInvariant ops s u (runs net before after task now e f) v = subst Keeps f (
    run_task-Keeps net _ task now
      (with_storage s s.storage (before ++ after) s.hold_buffer v v.bounded))
Step-IsInvariant ops s u (infers from_subjects e) v = rw e (
    with_inference _ _
      (with_storage s _ s.tasks s.hold_buffer v
        (turn-IsBounded ops from_subjects s.storage s.inference v.bounded))
      (turn-IsPaired ops from_subjects s.storage s.inference v.paired))
Step-IsInvariant ops s u (collects gc_threshold gc_relative expire e) v =
    subst Keeps e (collect-Keeps s gc_threshold gc_relative expire v)
Step-IsInvariant ops s u (starts net opened query e) v =
    subst Keeps e (start-Keeps net s opened query v)
Step-IsInvariant ops s u (stops e) v = subst Keeps e (stop-Keeps s v)

new-IsInvariant :
    (config : HealthServerConfig) (now : Time) → IsInvariant (new_health_g_server config now)
unfolding new_health_g_server Inferences.new_health_inference_storage Map.get
new-IsInvariant config now = record {
  bounded = new-IsBounded config.subjects now;
  paired = λ x. refl;
  once = tt;
  apart = new-IsWf config.id config.addr config.peers;
}

-- Whatever handlers, tasks, turns of inference and rounds of collection a new server runs, in any
-- order and with any answers of the network, the server keeps the invariant: views within their
-- bound, one panorama for each subject, results for exactly the subjects with a workbook, one
-- registration for each handle, and a set of ignoring peers of its own for each subject.
pub Reachable-IsInvariant :
    (ops : FloatOps) (config : HealthServerConfig) (s : HealthGServer)
    → Reachable ops config s
    → IsInvariant s
Reachable-IsInvariant ops config s (new now) = new-IsInvariant config now
Reachable-IsInvariant ops config s (next {s = before} r step) =
    Step-IsInvariant ops before s step (Reachable-IsInvariant ops config before r)

-- If every observation has a timestamp, as those of the model have, a collection panics in no server
-- that a new one can become: of every view exactly the observations that are to be kept stay.
pub Reachable-Collected :
    (ops : FloatOps) (config : HealthServerConfig) (s : HealthGServer) (gc_threshold : ℤ)
    (gc_relative : Bool) (expire : Option Timestamp)
    → Reachable ops config s
    → Collected s.storage gc_threshold
        (governs gc_relative expire)
        (gc s.storage gc_threshold gc_relative expire)
Reachable-Collected ops config s gc_threshold gc_relative expire r =
    gc-Collected s.storage gc_threshold gc_relative expire
      (Reachable-IsInvariant ops config s r).bounded
