-- ===== src/Service/Steps.antt =====
-- The server of service/service.go as a state machine: handlers, the tasks that they have started,
-- turns of the inference loop and rounds of GC, in any order.
use panorama.Prelude.{ℕ, ◌≡◌, GoString, Option, some, List, ◌∷◌, ◌++◌, Bool}
use panorama.Prelude.Int.{ℤ}
use panorama.Timestamp.{Timestamp}
use panorama.Health.{Report}
use panorama.Raw.{Time}
use panorama.Majority.{FloatOps}
use panorama.Inferences.{turn}
use panorama.Exchange.{Network, LearnReportRequest}
use panorama.Db.{Registration}
use panorama.Service.{
  HealthGServer, HealthServerConfig, Task, new_health_g_server, start, stop, register,
  submit_report, learn_report, observe, stop_observing,
}
use panorama.Service.Tasks.{run_task, collect}

-- One step from `s` to `u`. A task leaves the list when it is run; of several tasks any may be next.
pub data Step (ops : FloatOps) (s u : HealthGServer) : Type 0 where
  registers :
      (module_name observer : GoString) (now : Time)
      → u ≡ (register s module_name observer now).1
      → Step ops s u
  submits :
      (handle : ℕ) (report : Report) (now : Time)
      → u ≡ (submit_report s handle report now).1
      → Step ops s u
  learns :
      (request : LearnReportRequest) (now : Time)
      → u ≡ (learn_report s request now).1
      → Step ops s u
  observes : (subject : GoString) (now : Time) → u ≡ (observe s subject now).1 → Step ops s u
  stops_observing : (subject : GoString) → u ≡ (stop_observing s subject).1 → Step ops s u
  runs :
      (net : Network) (before after : List Task) (task : Task) (now : Time)
      → s.tasks ≡ before ++ task ∷ after
      → run_task net (record s { tasks = before ++ after }) task now ≡ some u
      → Step ops s u
  infers :
      (from_subjects : Bool)
      → u ≡ record s {
        storage = (turn ops from_subjects s.storage s.inference).0;
        inference = (turn ops from_subjects s.storage s.inference).1;
      }
      → Step ops s u
  collects :
      (gc_threshold : ℤ) (gc_relative : Bool) (expire : Option Timestamp)
      → collect s gc_threshold gc_relative expire ≡ some u
      → Step ops s u
  starts :
      (net : Network) (opened : Bool) (query : Option (List (Option Registration)))
      → start net s opened query ≡ some u
      → Step ops s u
  stops : stop s ≡ some u → Step ops s u

-- The servers that a new one can become.
pub data Reachable (ops : FloatOps) (config : HealthServerConfig) : HealthGServer → Type 0 where
  new : (now : Time) → Reachable ops config (new_health_g_server config now)
  next : {s u : HealthGServer} → Reachable ops config s → Step ops s u → Reachable ops config u
