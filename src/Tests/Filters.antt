-- ===== src/Tests/Filters.antt =====
-- The theorems about client/ and types/filter.go at concrete inputs.
use panorama.Prelude.{
  ℕ, ◌+◌, ◌≡◌, refl, ◌==◌, GoString, string_eq, str, none, some, is_some, List, [], ◌∷◌, false,
  nat_beq, if◌then◌else◌,
}
use panorama.Health.{unhealthy}
use panorama.Client.{Rpc, PersistentRpcClient, err_shutdown, reconnect}
use panorama.Client.Calls.{reconnect-conn}
use panorama.Filter.{
  Fields, FieldFilterBranch, FieldClassifier, RegexpOps, eval, new_field_equals_filter,
}
use panorama.Filter.Chosen.{classifier_of, first_body, first_branch, classifier_of-eval}
use panorama.Filter.Build.{FieldFilterClauseConfig, new_field_filter}
use panorama.Filter.Build.InSet.{is_returned, new_field_filter-in_set}

-- The world counts the dials; the second one succeeds, and each first call finds the server down.
abbrev flaky : Rpc ℕ ℕ ℕ ℕ
flaky = record {
  dial = λ addr w. (if nat_beq w 0 then none else some w, w + 1);
  request = λ conn args w. (some err_shutdown, args, w);
  hang_up = λ conn w. w;
  sleep = λ delay w. w;
}

abbrev dialed : PersistentRpcClient ℕ
dialed = record { addr = str "h0"; conn = some 7 }

reconnect-conn_example :
    (reconnect flaky 3 dialed 0).0 ≡ is_some (reconnect flaky 3 dialed 0).1.conn
reconnect-conn_example = reconnect-conn flaky 2 dialed 0

abbrev by_level : FieldClassifier
by_level =
    λ result. record { context = str "log"; subject = str "node"; status = unhealthy; score = 2 }

abbrev one_branch : List FieldFilterBranch
one_branch =
    record {
      head = new_field_equals_filter (str "level") (str "WARN");
      bodies =
          record {
            chain = new_field_equals_filter (str "class") (str "QuorumPeer") ∷ [];
            classifier = by_level;
          }
          ∷ [];
    }
    ∷ []

abbrev warned : Fields
warned = (str "level", str "WARN") ∷ (str "class", str "QuorumPeer") ∷ []

classifier_of-eval_example :
    classifier_of (eval one_branch warned) ≡ first_body warned (first_branch warned one_branch)
classifier_of-eval_example = classifier_of-eval one_branch warned

-- Patterns that match only themselves.
abbrev literal_ops : RegexpOps GoString
literal_ops = record {
  compile = λ pattern. some pattern;
  match_string = λ re s. re == s;
  find_string_submatch = λ re s. some (s ∷ []);
  subexp_names = λ re. [] ∷ [];
}

abbrev in_levels : FieldFilterClauseConfig
in_levels = record {
  field = str "level";
  operator = str "(-";
  pattern_text = str "['WARN', 'ERROR']";
  capture_result = false;
}

new_field_filter-in_set_example : is_returned (new_field_filter literal_ops in_levels) ≡ false
new_field_filter-in_set_example = new_field_filter-in_set literal_ops in_levels refl
