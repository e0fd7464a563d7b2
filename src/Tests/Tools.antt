-- ===== src/Tests/Tools.antt =====
-- The theorems about the command line tools, and what they print, at concrete inputs.
use panorama.Prelude.{
  ℕ, ◌+◌, ◌≤◌, ◌==◌, ◌≡◌, refl, GoString, string_eq, str, str_beq, str_beq_iff, none, some, [], ◌∷◌,
  true, false, arith, if◌then◌else◌,
}
use panorama.Prelude.Map
use panorama.Prelude.Map.{GoMap}
use panorama.Prelude.Int.{pos}
use panorama.Prelude.Strings.{str_ltb}
use panorama.Health.{Metric, healthy, unhealthy}
use panorama.Health.Printing.{Printer, metrics_string, metrics_string-same}
use panorama.Filter.{returns}
use panorama.Filter.Ensured.{Ensures}
use panorama.Logging.{initial_level, set_log_level_string}
use panorama.Config.{ServerConfig, ServerFlags, no_gc, choose_config, Json, save_config}
use panorama.Config.Mkrc.{MkrcFlags, Formats, make_config, choose_config-make_config}
use panorama.Shell.{Session, HealthClient}
use panorama.Shell.Subjects.{tok_string, cmp_subject, cmp_subject-both}
use panorama.Shell.Commands.{Library, run_cmd}
use panorama.Shell.Commands.Sessions.{Keeps, leaves, run_cmd-Keeps}
use panorama.Client.{Rpc, PersistentRpcClient, reconnect}
use panorama.Client.Dials.{Counts, reconnect-count}
use panorama.Tests.{ts_at, metric_of}

-- The world counts the requests, and each is answered by an error, except for registering.
abbrev failing_client : HealthClient ℕ
failing_client = record {
  register = λ name observer w. (some 10000, w + 1);
  submit_report = λ handle r w. (none, w + 1);
  get_latest_report = λ subject w. (none, w + 1);
  get_view = λ observer subject w. (none, w + 1);
  get_panorama = λ subject w. (none, w + 1);
  get_inference = λ subject w. (none, w + 1);
  dump_panorama = λ w. (none, w + 1);
  dump_inference = λ w. (none, w + 1);
  get_observed_subjects = λ w. (none, w + 1);
  ping = λ observer t w. (none, w + 1);
}

-- Only the texts "1" and "9" are numbers.
abbrev small_library : Library
small_library = record {
  atoi = λ s. if s == str "1" then some (pos 1) else if s == str "9" then some (pos 9) else none;
  parse_float = λ s. some 3;
  sort = λ less keys. keys;
}

abbrev as_alice : Session
as_alice = record { observer = str "alice"; handle = 7 }

run_cmd-Keeps_example :
    Ensures
      (Keeps small_library failing_client
        (leaves (str "tail"))
        (str "tail" == str "me")
        (str "tail" == str "report")
        as_alice)
      (run_cmd small_library failing_client
        (str "tail" ∷ str "9" ∷ str "get" ∷ [])
        (ts_at 1)
        as_alice
        0)
run_cmd-Keeps_example =
    run_cmd-Keeps small_library failing_client (str "tail") (str "9" ∷ str "get" ∷ []) (ts_at 1)
      as_alice 0

cmp_subject-both_example :
    (cmp_subject small_library.atoi (str "A9") (str "B1") ≡ true)
    × (cmp_subject small_library.atoi (str "B1") (str "A9") ≡ true)
unfolding str_ltb tok_string str_beq
cmp_subject-both_example = cmp_subject-both small_library.atoi (str "A9") (str "B1") refl refl

abbrev plain_formats : Formats
plain_formats = record {
  name = λ n. str "DHS";
  address = λ pattern n. pattern;
  int = λ n. str "6688";
}

abbrev one_server : MkrcFlags
one_server = record {
  id = str "DHS";
  nserver = 1;
  addressp = [];
  namestart = pos 0;
  sidstart = pos 0;
  portstart = pos 10000;
  portend = pos 30000;
  fixport = pos 6688;
  subjects = [];
  filter = false;
  dbfile = str "deephealth.db";
}

abbrev with_file : ServerFlags
with_file = record {
  rc = str "hview.json";
  addr = str "localhost";
  dbfile = [];
  portstart = pos 0;
  portend = pos 0;
  args = [];
}

abbrev one_server_config : ServerConfig
one_server_config = record {
  handlers = record {
    addr = str "localhost:6688";
    id = str "DHS";
    subjects = [];
    peers = (str "DHS", str "localhost:6688") ∷ [];
    filter_submission = false;
    hold_seconds = 0;
    hold_len = 0;
  };
  log_level = [];
  dump_mem_usage = false;
  db_file = str "deephealth.db";
  gc_config = no_gc;
}

-- A configuration is written as its id, and every text is read as the configuration of one server.
abbrev plain_json : Json
plain_json = record { encode = λ config. some config.id; decode = λ text. some one_server_config }

choose_config-make_config_example :
    choose_config
      (λ n. str "6688")
      (λ n. 0)
      plain_json
      with_file
      ((str "hview.json", str "DHS") ∷ [])
    ≡ returns (one_server_config, set_log_level_string [] initial_level)
unfolding make_config save_config Map.get Map.put str_beq
choose_config-make_config_example =
    choose_config-make_config plain_formats (λ n. 0) plain_json one_server one_server_config true
      with_file [] ((str "hview.json", str "DHS") ∷ []) refl refl (λ text e. refl) refl

-- Dialing never succeeds.
abbrev down : Rpc ℕ ℕ ℕ ℕ
down = record {
  dial = λ addr w. (none, w + 1);
  request = λ conn args w. (none, args, w);
  hang_up = λ conn w. w;
  sleep = λ delay w. w;
}

abbrev counted : Counts down
counted = record {
  count = λ w. w;
  dials = λ addr w. refl;
  hangs_up = λ conn w. refl;
  sleeps = λ delay w. refl;
}

abbrev undialed : PersistentRpcClient ℕ
undialed = record { addr = str "h0"; conn = none }

reconnect-count_example : (reconnect down 3 undialed 0).2 ≤ 3
reconnect-count_example = reconnect-count down counted 3 undialed 0

abbrev plain_printer : Printer
plain_printer = record {
  status_string = λ status. str "S";
  score_string = λ score. str "1.0";
  timestamp_string = λ t. str "T";
  int_string = λ n. str "1";
}

abbrev cpu_then_disk : GoMap GoString Metric
cpu_then_disk = (str "cpu", metric_of healthy 1) ∷ (str "disk", metric_of unhealthy 2) ∷ []

abbrev disk_then_cpu : GoMap GoString Metric
disk_then_cpu = (str "disk", metric_of unhealthy 2) ∷ (str "cpu", metric_of healthy 1) ∷ []

same_entries : (k : GoString) → Map.get k cpu_then_disk ≡ Map.get k disk_then_cpu
unfolding Map.get
same_entries k = ground (arith, str_beq_iff (str "cpu") k, str_beq_iff (str "disk") k)

metrics_string-same_example :
    metrics_string plain_printer cpu_then_disk ≡ metrics_string plain_printer disk_then_cpu
unfolding Map.get str_beq
metrics_string-same_example =
    metrics_string-same plain_printer cpu_then_disk disk_then_cpu (refl, (refl, tt))
      (refl, (refl, tt)) same_entries
