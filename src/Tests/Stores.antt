-- ===== src/Tests/Stores.antt =====
-- The theorems about store/ and exchange/ at concrete inputs.
use panorama.Prelude.{
  ◌⊎◌, ◌<◌, inl, inr, ◌<◌, ℕ, ◌+◌, ◌≡◌, refl, ◌==◌, string_eq, str, str_beq, none, some, List, [],
  ◌∷◌, ◌++◌, true, false, leb, length, arith, select, if◌then◌else◌,
}
use panorama.Prelude.Map
use panorama.Timestamp.{IsTimestamp}
use panorama.Raw.Latest.{IsLatest, get_latest_report-IsLatest}
use panorama.Db.{Registration, read_rows}
use panorama.Db.Restore.{Covers, read_rows-Covers}
use panorama.Prelude.Window.{last}
use panorama.Health.{healthy, Observation}
use panorama.Prelude.Int.{pos}
use panorama.Raw
use panorama.Raw.{Time, RawHealthStorage, new_raw_health_storage}
use panorama.Raw.History.{run_new-Refines}
use panorama.Raw.Promise.{Call, adds, watches, unwatches, collects, run, notes, fresh, IsRefined}
use panorama.Cache
use panorama.Cache.{CacheItem, CacheList}
use panorama.Cache.Expiry.{get-set}
use panorama.Cache.Chain.{
  chain_of, unexpired, all_pass, drop_expired-unexpired, chain_of-set_list, process_lem,
}
use panorama.Cache.Reap.{reap-never_removes}
use panorama.Inferences
use panorama.Inferences.{infer_subject, infer_report, turn}
use panorama.Inferences.Answered.{infer_report_async-answered}
use panorama.Inferences.Served.{turns}
use panorama.Tests.{ts_at, observed_at, report_by, two_views, whole_ops}

abbrev two_calls : List (Time × Call)
two_calls =
    (1, adds (report_by (str "a")) true)
    ∷ (2, watches (str "disk"))
    ∷ (3, unwatches (str "node") true)
    ∷ (4, adds (report_by (str "b")) false)
    ∷ (5, collects (pos 10) true none)
    ∷ []

run_new-Refines_example :
    IsRefined
      (run (new_raw_health_storage (str "node" ∷ []) 0) two_calls)
      (notes (fresh (str "node" ∷ [])) two_calls)
run_new-Refines_example = run_new-Refines (str "node" ∷ []) 0 two_calls

-- The subject is watched, and has a panorama of two views.
abbrev stored : RawHealthStorage
stored = record {
  tenants = (str "node", two_views) ∷ [];
  watchlist = (str "node", 0) ∷ [];
  has_db = false;
  db_reports = [];
}

abbrev three_observations : List Observation
three_observations =
    observed_at 1 healthy 10 ∷ observed_at 5 healthy 20 ∷ observed_at 9 healthy 9 ∷ []

abbrev one_item : Cache.Cache ℕ
one_item = record { ttl = 10; items = (str "x", record { expires = 5; value = 1 }) ∷ [] }

get-set_example : (Cache.get (Cache.set one_item (str "y") 2 3).0 (str "y") 4).0 ≡ (
    if str "y" == str "y"
    then (if leb (3 + 10) 4 then none else some 2)
    else (Cache.get one_item (str "y") 4).0)
get-set_example = get-set one_item (str "y") (str "y") 2 3 4

abbrev item_at : ℕ → CacheItem ℕ
item_at n = record { expires = n; value = n }

drop_expired-unexpired_example :
    Cache.drop_expired 4 (item_at 2 ∷ item_at 4 ∷ item_at 6 ∷ [])
    ≡ unexpired 4 (item_at 2 ∷ item_at 4 ∷ item_at 6 ∷ [])
drop_expired-unexpired_example =
    drop_expired-unexpired 4 (item_at 2 ∷ item_at 4 ∷ item_at 6 ∷ [])
      ((omega arith, (omega arith, tt)), ((omega arith, tt), (tt, tt)))

abbrev two_chained : CacheList ℕ
two_chained = record {
  ttl = 10;
  items = (str "x", item_at 2 ∷ item_at 6 ∷ []) ∷ [];
  max_list_len = 2;
}

chain_of-set_list_example : chain_of (Cache.set_list two_chained (str "x") 7 3) (str "x") ≡ (
    if str "x" == str "x"
    then last 2 ((item_at 2 ∷ item_at 6 ∷ []) ++ record { expires = 3 + 10; value = 7 } ∷ [])
    else chain_of two_chained (str "x"))
unfolding Map.get last str_beq
chain_of-set_list_example =
    chain_of-set_list two_chained (str "x") (str "x") 7 3 (item_at 2 ∷ item_at 6 ∷ []) refl

process_lem_example : Cache.process two_chained (str "x") (λ item. false) 4 ≡ (
    if all_pass (λ item. false) (select (Cache.is_expired 4) (chain_of two_chained (str "x")))
    then some (
      length (select (Cache.is_expired 4) (chain_of two_chained (str "x"))),
      if Map.has (str "x") two_chained.items
          then record two_chained { items = Map.put (str "x") [] two_chained.items }
          else two_chained,
    )
    else none)
process_lem_example = process_lem two_chained (str "x") (λ item. false) 4

reap-never_removes_example :
    let mu : Cache.RwMutex = record { writer = false; waiting = false; readers = 1 } in
    (Cache.reap false mu one_item 6 ≡ Cache.Locked.fatal)
    ⊎ (Cache.reap false mu one_item 6 ≡ Cache.Locked.waits)
    ⊎ ((mu' : Cache.RwMutex) × (Cache.reap false mu one_item 6
          ≡ Cache.Locked.locked (mu', one_item))
        × (1 < mu'.readers))
reap-never_removes_example =
    reap-never_removes false (record { writer = false; waiting = false; readers = 1 }) one_item 6

abbrev no_results : Inferences.HealthInferenceStorage
no_results = record {
  results = [];
  workbooks = [];
  report_ch = report_by (str "a") ∷ [];
  subject_ch = str "node" ∷ [];
  has_db = false;
  db_inferences = [];
  alive = true;
}

dated : (n : ℕ) → n < 1000 → IsTimestamp (ts_at n)
dated n h = record {
  low = omega arith;
  high = omega arith;
  whole = omega arith;
  below = omega arith;
}

get_latest_report-IsLatest_example :
    IsLatest two_views.views (Raw.get_latest_report stored (str "node"))
unfolding Map.get str_beq
get_latest_report-IsLatest_example =
    get_latest_report-IsLatest stored (str "node") two_views refl
      ((dated 1 (omega arith), (dated 2 (omega arith), tt)), ((dated 3 (omega arith), tt), tt))

abbrev row_at : ℕ → Registration
row_at time = record {
  observer_module = record { module_name = str "m"; observer = str "a" };
  handle = 10001;
  time = time;
}

read_rows-Covers_example :
    Covers (row_at 3) (read_rows (some (row_at 5) ∷ none ∷ some (row_at 3) ∷ []) ([], 0))
read_rows-Covers_example =
    read_rows-Covers (row_at 3) (some (row_at 5) ∷ none ∷ some (row_at 3) ∷ []) ([], 0)
      (inr (inr (inl refl)))

-- One report waits when the other one is sent.
abbrev one_waiting : Inferences.HealthInferenceStorage
one_waiting = record no_results { report_ch = report_by (str "a") ∷ []; alive = true }

abbrev both_waiting : Inferences.HealthInferenceStorage
both_waiting = record no_results {
  report_ch = report_by (str "a") ∷ report_by (str "b") ∷ [];
  alive = true;
}

infer_report_async-answered_example :
    Inferences.get_inference
      (turns whole_ops (true ∷ false ∷ false ∷ []) stored both_waiting).1
      (str "node")
    ≡ (infer_report whole_ops
        (turns whole_ops (true ∷ false ∷ []) stored both_waiting).0
        (record (turns whole_ops (true ∷ false ∷ []) stored both_waiting).1 { report_ch = [] })
        (report_by (str "b"))).0
unfolding Inferences.infer_report_async
infer_report_async-answered_example =
    infer_report_async-answered whole_ops (true ∷ false ∷ []) stored one_waiting both_waiting
      (report_by (str "b")) refl refl refl refl
