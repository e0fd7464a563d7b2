-- ===== src/Tests/Services.antt =====
-- The theorems about service/ and exchange/ at concrete inputs.
use panorama.Prelude.{
  ◌≡◌, ◌⊎◌, refl, ◌==◌, GoString, string_eq, nat_eq, str, str_beq, none, some, [], ◌∷◌, ◌++◌, true,
  false, ◌&&◌, arith, if◌then◌else◌,
}
use panorama.Prelude.Map
use panorama.Prelude.Map.{GoMap}
use panorama.Raw
use panorama.Raw.{RawHealthStorage}
use panorama.Raw.Frame.{pushed, drops}
use panorama.Inferences
use panorama.Cache
use panorama.Db.{Registration}
use panorama.Exchange
use panorama.Exchange.{ExchangeProtocol, Network, LearnReportRequest, normal, propagate_peer}
use panorama.Exchange.Interest.{skips, IsWf, skips-uninterested, skips-interested}
use panorama.Service
use panorama.Service.{HealthGServer, HealthServerConfig, analyze, propagates}
use panorama.Prelude.Int.{pos}
use panorama.Raw.Collect.{gc}
use panorama.Raw.Collect.Whole.{Collected, governs}
use panorama.Service.{register, new_health_g_server}
use panorama.Service.Steps.{Reachable, new, next, registers}
use panorama.Service.Invariant.{IsInvariant}
use panorama.Service.Reached.{Reachable-IsInvariant, Reachable-Collected}
use panorama.Service.Handles.{Registers, register-Registers}
use panorama.Service.Reports.{is_good, submit_report_cases, learn_report_cases}
use panorama.Service.Queries
use panorama.Service.Tasks
use panorama.Service.Held.{get_view-add_report}
use panorama.Health.{Report, unhealthy}
use panorama.Tests.{whole_ops, observed_at, ts_at, report_by, two_views}

abbrev two_peers : GoMap GoString GoString
two_peers = (str "p1", str "h1") ∷ (str "p2", str "h2") ∷ []

abbrev stored : RawHealthStorage
stored = record {
  tenants = (str "node", two_views) ∷ [];
  watchlist = (str "node", 0) ∷ [];
  has_db = false;
  db_reports = [];
}

-- No subject has a set of ignoring peers yet.
abbrev linked : ExchangeProtocol
linked = record {
  id = str "me";
  addr = str "h0";
  peers = two_peers;
  skip_subject_peers = [];
  heap = [];
  next = 0;
  clients = [];
  me = record { id = str "me"; addr = str "h0" };
}

abbrev registered : Registration
registered = record {
  observer_module = record { module_name = str "m"; observer = str "a" };
  handle = 10000;
  time = 1;
}

abbrev server : HealthGServer
server = record {
  config = record {
    addr = str "h0";
    id = str "me";
    subjects = str "node" ∷ [];
    peers = two_peers;
    filter_submission = true;
    hold_seconds = 0;
    hold_len = 0;
  };
  storage = stored;
  inference = Inferences.new_health_inference_storage;
  exchange = linked;
  hold_buffer = record { ttl = 180000000000; items = []; max_list_len = 60 };
  registrations = (10000, registered) ∷ [];
  old_registrations = none;
  next_handle = 10001;
  has_db = false;
  db_registrations = [];
  started = true;
  tasks = [];
}

register-Registers_example :
    Registers server (str "m") (str "b") (Service.register server (str "m") (str "b") 3)
unfolding Map.get
register-Registers_example =
    register-Registers server (str "m") (str "b") 3 (refl, tt) (omega arith, tt)

-- A peer that answers every report by IGNORED.
abbrev deaf : Network
deaf = record {
  dial = λ addr. true;
  learn_report = λ addr request. some Exchange.ignored;
  ping = λ addr me. some (ts_at 4);
}

abbrev sends : LearnReportRequest
sends = record { kind = normal; source = linked.me; report = report_by (str "a") }

linked-IsWf : IsWf linked
unfolding Map.get
linked-IsWf = record { below = λ x p e. ground (arith, e); apart = λ x y p e f. ground (arith, e) }

skips-uninterested_example :
    skips (Exchange.uninterested linked (str "p1") (str "node")).1 (str "node") (str "p2") ≡ (
      if (str "node" == str "node") && (str "p1" == str "p2")
      then true
      else skips linked (str "node") (str "p2"))
skips-uninterested_example =
    skips-uninterested linked (str "p1") (str "node") linked-IsWf (str "node") (str "p2")

skips-interested_example :
    ((Exchange.interested linked (str "p1") (str "node")).0
      ≡ Map.has (str "node") linked.skip_subject_peers)
    × ((x other : GoString)
        → skips (Exchange.interested linked (str "p1") (str "node")).1 x other
          ≡ (if (str "node" == x) && (str "p1" == other) then false else skips linked x other))
skips-interested_example = skips-interested linked (str "p1") (str "node") linked-IsWf

submit_report_cases_example :
    ((is_good server 10000 (str "a") ≡ false)
      × (Service.submit_report server 10000 (report_by (str "a")) 7 ≡ (none, server)))
    ⊎ ((is_good server 10000 (str "a") ≡ true)
        × ((Service.submit_report server 10000 (report_by (str "a")) 7).0 ≡ some Exchange.accepted)
        × ((Service.submit_report server 10000 (report_by (str "a")) 7).1.tasks
            ≡ [] ++ analyze (report_by (str "a")) true ∷ propagates (report_by (str "a")) ∷ [])
        × ((observer subject : GoString)
            → Raw.get_view
                (Service.submit_report server 10000 (report_by (str "a")) 7).1.storage
                observer
                subject
              ≡ (if (str "node" == subject) && (str "a" == observer)
                  then some
                      (pushed (report_by (str "a")) (Raw.get_view stored (str "a") (str "node")))
                  else Raw.get_view stored observer subject)))
submit_report_cases_example = submit_report_cases server 10000 (report_by (str "a")) 7

learn_report_cases_example :
    ((drops stored (report_by (str "a")) true ≡ true)
      × (Service.learn_by_kind normal server (str "p1") (report_by (str "a")) 7 ≡ (
        Exchange.ignored,
        record server {
          hold_buffer = Cache.set_list server.hold_buffer (str "node") (report_by (str "a")) 7;
        },
      )))
    ⊎ ((drops stored (report_by (str "a")) true ≡ false)
        × ((Service.learn_by_kind normal server (str "p1") (report_by (str "a")) 7).0
            ≡ Exchange.accepted)
        × ((Service.learn_by_kind normal server (str "p1") (report_by (str "a")) 7).1.exchange
            ≡ (Exchange.interested linked (str "p1") (str "node")).1)
        × ((Service.learn_by_kind normal server (str "p1") (report_by (str "a")) 7).1.tasks
            ≡ [] ++ analyze (report_by (str "a")) false ∷ [])
        × ((Service.learn_by_kind normal server (str "p1") (report_by (str "a")) 7).1.hold_buffer
            ≡ server.hold_buffer)
        × ((observer subject : GoString)
            → Raw.get_view
                (Service.learn_by_kind normal server (str "p1") (report_by (str "a")) 7).1.storage
                observer
                subject
              ≡ (if (str "node" == subject) && (str "a" == observer)
                  then some
                      (pushed (report_by (str "a")) (Raw.get_view stored (str "a") (str "node")))
                  else Raw.get_view stored observer subject)))
learn_report_cases_example = learn_report_cases server (str "p1") (report_by (str "a")) 7

get_view-add_report_example :
    let s' = record server { storage = (Raw.add_report stored (report_by (str "a")) false 7).0 } in
    (Queries.get_view s' (str "node") (str "a") ≡ Queries.get_view server (str "node") (str "a"))
    × (Queries.get_view s' (str "a") (str "node")
        ≡ some (pushed (report_by (str "a")) (Queries.get_view server (str "a") (str "node"))))
unfolding str_beq
get_view-add_report_example = get_view-add_report server (report_by (str "a")) 7 refl

-- A report about a subject that the server does not watch.
abbrev unwatched : Report
unwatched = record {
  observer = str "a";
  subject = str "disk";
  observation = observed_at 5 unhealthy 30;
}

-- A new server, and the same after a registration.
abbrev registering :
    Reachable whole_ops server.config
      (register (new_health_g_server server.config 0) (str "m") (str "a") 1).1
registering = next (new 0) (registers (str "m") (str "a") 1 refl)

Reachable-IsInvariant_example :
    IsInvariant (register (new_health_g_server server.config 0) (str "m") (str "a") 1).1
Reachable-IsInvariant_example =
    Reachable-IsInvariant whole_ops server.config
      (register (new_health_g_server server.config 0) (str "m") (str "a") 1).1 registering

Reachable-Collected_example :
    Collected
      (register (new_health_g_server server.config 0) (str "m") (str "a") 1).1.storage
      (pos 5000000000)
      (governs true none)
      (gc
        (register (new_health_g_server server.config 0) (str "m") (str "a") 1).1.storage
        (pos 5000000000)
        true
        none)
Reachable-Collected_example =
    Reachable-Collected whole_ops server.config
      (register (new_health_g_server server.config 0) (str "m") (str "a") 1).1 (pos 5000000000) true
      none registering
