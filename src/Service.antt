-- ===== src/Service.antt =====
-- service/service.go: HealthGServer. A handler runs up to its `go` statements; what these start is
-- appended to `tasks`, and `run_task` runs one of them. `time.Now()` is an argument.
pub mod Handles
pub mod Reports
pub mod Queries
pub mod Tasks
pub mod Held
pub mod Steps
pub mod Invariant
pub mod Reached
use panorama.Prelude.{
  ℕ, suc, ◌+◌, ◌*◌, ◌%◌, ◌==◌, GoString, string_eq, nat_eq, Option, none, some, List, [], ◌∷◌, ◌++◌,
  Bool, true, false, ◌&&◌, ltb, length, map, if◌then◌else◌,
}
use panorama.Prelude.Map
use panorama.Prelude.Map.{GoMap}
use panorama.Prelude.Int.{ℤ}
use panorama.Timestamp.{Timestamp}
use panorama.Health.{Report, View, Panorama, Inference}
use panorama.Raw
use panorama.Raw.{RawHealthStorage, Time}
use panorama.Raw.Collect.{gc}
use panorama.Majority.{FloatOps}
use panorama.Inferences
use panorama.Inferences.{HealthInferenceStorage, InferMap}
use panorama.Cache.{CacheItem, CacheList, new_cache_list, get_list, set_list, empty_list}
use panorama.Exchange.{
  Peer, Kind, normal, subscription, unsubscription, LearnReportRequest, ReplyStatus, ignored,
  accepted, failed, ExchangeProtocol, Network, new_exchange_protocol, propagate, subscribe,
  unsubscribe, interested, uninterested, ping_all,
}
use panorama.Db.{ObserverModule, Registration, read_registrations}

abbrev pub handle_start : ℕ
handle_start = 10000

-- Three minutes, in nanoseconds; at most 60 reports are held for a subject.
abbrev pub hold_time : ℕ
hold_time = 180000000000

abbrev pub hold_list_len : ℕ
hold_list_len = 60

abbrev pub second : ℕ
second = 1000000000

pub data Task : Type 0 where
  analyze : Report → Bool → Task
  propagates : Report → Task
  subscribes : GoString → Task
  unsubscribes : GoString → Task

-- The part of HealthServerConfig that the handlers read.
pub record HealthServerConfig : Type 0 where
  pub addr : GoString
  pub id : GoString
  pub subjects : List GoString
  pub peers : GoMap GoString GoString
  pub filter_submission : Bool
  pub hold_seconds : ℕ
  pub hold_len : ℕ

-- `db_registrations` lists what was passed to `InsertRegistration`, newest first; `started` says
-- whether the gRPC server `s` is set.
pub record HealthGServer : Type 0 where
  pub config : HealthServerConfig
  pub storage : RawHealthStorage
  pub inference : HealthInferenceStorage
  pub exchange : ExchangeProtocol
  pub hold_buffer : CacheList Report
  pub registrations : GoMap ℕ Registration
  pub old_registrations : Option (GoMap ℕ Registration)
  pub next_handle : ℕ
  pub has_db : Bool
  pub db_registrations : List Registration
  pub started : Bool
  pub tasks : List Task

unfoldable pub new_health_g_server : HealthServerConfig → Time → HealthGServer
new_health_g_server config now = record {
  config = config;
  storage = Raw.new_raw_health_storage config.subjects now;
  inference = Inferences.new_health_inference_storage;
  exchange = new_exchange_protocol config.id config.addr config.peers;
  hold_buffer =
      if ltb 0 config.hold_seconds
      then new_cache_list (config.hold_seconds * second) config.hold_len
      else new_cache_list hold_time hold_list_len;
  registrations = [];
  old_registrations = none;
  next_handle = handle_start;
  has_db = false;
  db_registrations = [];
  started = false;
  tasks = [];
}

-- `Start` after a successful `net.Listen`: the database is opened, with the given success, and its
-- rows are read; then the peers are pinged. None if the server runs already.
unfoldable pub start :
    Network → HealthGServer → Bool → Option (List (Option Registration)) → Option HealthGServer
start net s opened query =
    if s.started
    then none
    else some (record s {
      started = true;
      has_db = true;
      storage = if opened then Raw.set_db s.storage else s.storage;
      inference = if opened then Inferences.set_db s.inference else s.inference;
      old_registrations =
          if opened then (read_registrations opened query).0 else s.old_registrations;
      exchange = (ping_all net s.exchange).2;
    })

-- None if the server does not run.
unfoldable pub stop : HealthGServer → Option HealthGServer
stop s =
    if s.started
    then some (record s { started = false; inference = Inferences.stop s.inference })
    else none

-- The loop of `Register`: the handle of a matching registration, and the greatest handle seen.
unfoldable pub find_registration : GoString → GoString → GoMap ℕ Registration → ℕ → Option ℕ × ℕ
find_registration module_name observer [] max_handle = (none, max_handle)
find_registration module_name observer ((handle, reg) ∷ regs) max_handle =
    let rest =
      find_registration module_name observer regs
        (if ltb max_handle handle then handle else max_handle) in
    if (reg.module_name == module_name) && (reg.observer == observer)
    then (some handle, max_handle)
    else rest

-- The handles are uint64 numbers.
abbrev pub uint64_inc : ℕ → ℕ
uint64_inc n = (n + 1) % 18446744073709551616

unfoldable pub fresh_handle : ℕ → ℕ → ℕ
fresh_handle next_handle max_handle =
    if ltb max_handle next_handle then next_handle else uint64_inc max_handle

unfoldable pub assign : HealthGServer → GoString → GoString → ℕ → Time → HealthGServer
assign s module_name observer handle now =
    let reg : Registration = record {
      observer_module = record { module_name = module_name; observer = observer };
      handle = handle;
      time = now;
    } in
    record s {
      storage = (Raw.add_subject s.storage observer now).0;
      registrations = Map.put handle reg s.registrations;
      db_registrations = if s.has_db then reg ∷ s.db_registrations else s.db_registrations;
      next_handle = uint64_inc handle;
    }

unfoldable pub register : HealthGServer → GoString → GoString → Time → ℕ × HealthGServer
unfolding find_registration fresh_handle assign
register s module_name observer now =
    let (found, max_handle) = find_registration module_name observer s.registrations 0 in
    elim found [
      | some handle ↦ (handle, s)
      | none ↦
          let handle = fresh_handle s.next_handle max_handle in
          (handle, assign s module_name observer handle now)
    ]

unfoldable pub restore : HealthGServer → ℕ → Registration → Time → HealthGServer
restore s handle reg now = record s {
  registrations = Map.put handle reg s.registrations;
  storage = (Raw.add_subject s.storage reg.observer now).0;
}

-- The check of the handle: the server, with an old registration restored; none for an error.
unfoldable pub check_handle : HealthGServer → ℕ → GoString → Time → Option HealthGServer
unfolding restore
check_handle s handle observer now = elim (Map.get handle s.registrations) [
  | some reg ↦ some s
  | none ↦ elim s.old_registrations [
    | none ↦ none
    | some old ↦ elim (Map.get handle old) [
      | none ↦ none
      | some reg ↦ if reg.observer == observer then some (restore s handle reg now) else none
    ]
  ]
]

-- The result of `AddReport` turned into a reply: none is the error for an ignored local report.
unfoldable pub submit_result :
    HealthGServer → Report → RawHealthStorage × Raw.AddResult → Option ReplyStatus × HealthGServer
submit_result s report (storage, rc) = elim rc [
  | Raw.ignored ↦ (none, record s { storage = storage })
  | Raw.failed ↦ (some failed, record s { storage = storage })
  | Raw.accepted ↦ (
    some accepted,
    record s { storage = storage; tasks = s.tasks ++ analyze report true ∷ propagates report ∷ [] },
  )
]

unfoldable pub submit_report :
    HealthGServer → ℕ → Report → Time → Option ReplyStatus × HealthGServer
unfolding check_handle submit_result
submit_report s handle report now = elim (check_handle s handle report.observer now) [
  | none ↦ (none, s)
  | some s' ↦ submit_result s' report (Raw.add_report s'.storage report false now)
]

unfoldable pub learn_result :
    HealthGServer
    → GoString
    → Report
    → Time
    → RawHealthStorage × Raw.AddResult
    → ReplyStatus × HealthGServer
learn_result s source report now (storage, rc) = elim rc [
  | Raw.ignored ↦ (
    ignored,
    record s { storage = storage; hold_buffer = set_list s.hold_buffer report.subject report now },
  )
  | Raw.failed ↦ (failed, record s { storage = storage })
  | Raw.accepted ↦ (
    accepted,
    record s {
      storage = storage;
      exchange = (interested s.exchange source report.subject).1;
      tasks = s.tasks ++ analyze report false ∷ [];
    },
  )
]

unfoldable pub learn_by_kind :
    Kind → HealthGServer → GoString → Report → Time → ReplyStatus × HealthGServer
unfolding learn_result
learn_by_kind normal s source report now =
    learn_result s source report now
      (Raw.add_report s.storage report s.config.filter_submission now)
learn_by_kind subscription s source report now =
    (accepted, record s { exchange = (interested s.exchange source report.subject).1 })
learn_by_kind unsubscription s source report now =
    (accepted, record s { exchange = (uninterested s.exchange source report.subject).1 })

unfoldable pub learn_report :
    HealthGServer → LearnReportRequest → Time → ReplyStatus × HealthGServer
unfolding learn_by_kind
learn_report s request now = learn_by_kind request.kind s request.source.id request.report now

unfoldable pub observe : HealthGServer → GoString → Time → Bool × HealthGServer
observe s subject now =
    let (storage, added) = Raw.add_subject s.storage subject now in
    (added, record s { storage = storage; tasks = s.tasks ++ subscribes subject ∷ [] })

unfoldable pub stop_observing : HealthGServer → GoString → Bool × HealthGServer
stop_observing s subject =
    let (storage, removed) = Raw.remove_subject s.storage subject true in
    (removed, record s { storage = storage; tasks = s.tasks ++ unsubscribes subject ∷ [] })
