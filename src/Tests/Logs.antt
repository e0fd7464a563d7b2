-- ===== src/Tests/Logs.antt =====
-- The theorems about plugin/zookeeper.go and cmd/hview-logtail/main.go at concrete inputs.
use panorama.ZooKeeper.Plugin.{new_plugin}
use panorama.Prelude.{
  ℕ, ◌+◌, ◌==◌, ◌≡◌, refl, GoString, string_eq, str, str_beq, none, some, List, [], ◌∷◌, Bool, true,
  false, arith, if◌then◌else◌,
}
use panorama.Prelude.Map
use panorama.Prelude.Int.{ℤ, pos, ◌+ℤ◌, scale, wrap64}
use panorama.Health.{unhealthy}
use panorama.Exchange.{accepted}
use panorama.Filter
use panorama.Filter.{
  RegexpOps, returns, FieldClassifier, FieldFilterBranch, new_field_equals_filter,
  find_string_submatch_map, field_of,
}
use panorama.Filter.Ensured.{Ensures}
use panorama.ZooKeeper.{
  Event, ZkServer, ZooKeeperEventParser, Standard, Patterns, eid_to_addr, addr_to_eid, parse_line,
  compile_patterns,
}
use panorama.ZooKeeper.Ensemble.Printed.{Entry}
use panorama.ZooKeeper.Attributed.{IsAttributed, parse_line-IsAttributed}
use panorama.ZooKeeper.Panics.{panicked, parse_line-panicked}
use panorama.ZooKeeper.Plugin.{Files}
use panorama.LogTail.{Settings, HealthService}
use panorama.LogTail.Main.{Flags, Outside, main, zookeeper}
use panorama.LogTail.Main.Monitored.{IsMonitored, IsAttributing, main-IsMonitored}
use panorama.Filter.Build.{FieldFilterChainConfig}

-- The pattern of a line matches every line, with the same groups, and the others match nothing.
abbrev line_ops : RegexpOps Bool
line_ops = record {
  compile = λ pattern. some true;
  match_string = λ re s. re;
  find_string_submatch = λ re s.
      if re
      then some (
          s ∷ str "2017-11-08 16:27:22,123" ∷ str "2" ∷ str "WARN" ∷ str "Quorum" ∷ str "slow" ∷ [])
      else none;
  subexp_names = λ re. [] ∷ str "time" ∷ str "id" ∷ str "level" ∷ str "tag" ∷ str "content" ∷ [];
}

abbrev plain_std : Standard
plain_std = record {
  is_ip = λ s. s == str "10.0.0.1";
  atoi = λ s. some (pos 123);
  parse_time = λ s. some (pos 1510158442000000000);
}

abbrev line_patterns : Patterns Bool
line_patterns = record { zkline_reg = true; tag_id_reg = false; tag_host_reg = false }

abbrev quorum : List ZkServer
quorum = record { eid = str "2"; address = str "10.0.0.1" } ∷ []

abbrev slow_classifier : FieldClassifier
slow_classifier =
    λ result. record { context = []; subject = str "10.0.0.1"; status = unhealthy; score = 2 }

abbrev warn_tree : List FieldFilterBranch
warn_tree =
    record {
      head = new_field_equals_filter (str "level") (str "WARN");
      bodies = record { chain = []; classifier = slow_classifier } ∷ [];
    }
    ∷ []

abbrev line_parser : ZooKeeperEventParser
line_parser = record {
  entity_id_prefix = str "peer@";
  eid_addr_map = eid_to_addr quorum [];
  addr_eid_map = addr_to_eid quorum [];
  filter_tree = warn_tree;
}

abbrev slow_event : Event
slow_event = record {
  time = pos 1510158442123000000;
  id = str "peer@2";
  subject = str "peer@2";
  context = str "Quorum";
  status = unhealthy;
  score = 2;
  extra = str "slow";
}

parse_line-IsAttributed_example :
    IsAttributed line_ops plain_std line_patterns quorum line_parser
      (find_string_submatch_map line_ops true (str "a line") [])
      slow_event
unfolding parse_line find_string_submatch_map Filter.eval Map.get Map.put str_beq
    new_field_equals_filter ◌+ℤ◌ scale wrap64 addr_to_eid
parse_line-IsAttributed_example =
    parse_line-IsAttributed line_ops plain_std line_patterns quorum line_parser (str "a line")
      slow_event (refl, refl) refl

parse_line-panicked_example :
    panicked (parse_line line_ops plain_std line_patterns line_parser (str "a line")) ≡ false
unfolding find_string_submatch_map Map.get Map.put str_beq
parse_line-panicked_example =
    parse_line-panicked line_ops plain_std line_patterns line_parser (str "a line") (omega arith)

abbrev listed : Entry
listed = (record { eid = str "2"; address = str "10.0.0.1" }, some (str "2888:3888"))

-- Every event is reported, and one within a second of the last is merged.
abbrev daemon_flags : Settings
daemon_flags = record {
  report = true;
  checks_stale = false;
  is_stale = λ d. false;
  merges = true;
  is_frequent = λ d. true;
  to_int32 = λ score. pos score;
  timestamp_proto = λ t. none;
}

-- The world counts the requests.
abbrev counting_service : HealthService ℕ
counting_service = record {
  register = λ name observer w. (some 10000, w + 1);
  submit_report = λ handle observer subject observation w. (some accepted, w + 1);
}

abbrev two_lines : List (GoString × ℤ)
two_lines = (str "x", pos 7) ∷ (str "y", pos 8) ∷ []

abbrev warn_chain : FieldFilterChainConfig
warn_chain = record {
  chain =
      record {
        field = str "level";
        operator = str "==";
        pattern_text = str "WARN";
        capture_result = false;
      }
      ∷ [];
  classifier = record {
    context = [];
    subject = str "10.0.0.1";
    status = str "unhealthy";
    score = str "2";
  };
}

abbrev daemon_files : Files
daemon_files = record {
  ensemble_lines = some (str "server.2=10.0.0.1:2888" ∷ []);
  myid_bytes = some (str "2 ");
  filter_json = some (warn_chain ∷ []);
}

abbrev daemon_setup : Flags
daemon_setup = record {
  settings = daemon_flags;
  args = str "zookeeper" ∷ [];
  log = str "zk.log";
  server = str "h0:6688";
}

abbrev counting_outside : Outside ℕ
counting_outside = record {
  hostname = none;
  dial = λ addr w. (true, w);
  service = counting_service;
}

main-IsMonitored_example :
    Ensures
      (λ tailed.
        (regs : Patterns Bool) × (compile_patterns line_ops ≡ returns regs)
        × IsMonitored
            (zookeeper line_ops plain_std (λ s. none) (λ s. some 1) daemon_files regs)
            (IsAttributing line_ops plain_std (λ s. none) (λ s. some 1) daemon_files regs)
            new_plugin
            counting_outside
            daemon_setup
            two_lines
            0
            tailed)
      (main line_ops plain_std
        (λ s. none)
        (λ s. some 1)
        daemon_files
        counting_outside
        daemon_setup
        two_lines
        0)
main-IsMonitored_example =
    main-IsMonitored line_ops plain_std (λ s. none) (λ s. some 1) daemon_files counting_outside
      daemon_setup two_lines 0
