-- ===== src/Db/Inserts.antt =====
-- store/db.go: opening the database, and what is inserted into it. SQLite is a parameter, over a
-- state `W` of the database; the time of a row, which the driver formats, is its timestamp.
use panorama.Prelude.{GoString, str, List, [], ◌∷◌, ◌++◌, Bool, true, false, not, if◌then◌else◌}
use panorama.Timestamp.{Timestamp}
use panorama.Health.{Report, Inference}
use panorama.Health.Printing.{Printer, metrics_string}
use panorama.Filter.{Result, returns, panics}
use panorama.Db.{Registration}

-- A row of one of the three tables.
pub data Row : Type 0 where
  panorama_row : GoString → GoString → Timestamp → GoString → Row
  inference_row : GoString → GoString → Timestamp → GoString → Row
  registration_row : Registration → Row

-- `sql.Open`, the creation of the tables, whether each of the statements can be prepared, closing,
-- and executing a prepared statement; the flag is false for an error.
pub record Sql (W : Type 0) : Type 0 where
  pub open_file : GoString → W → Bool × W
  pub create : W → Bool × W
  pub prepare_report : W → Bool × W
  pub prepare_inference : W → Bool × W
  pub prepare_registration : W → Bool × W
  pub hang_up : W → W
  pub exec : Row → W → Bool × W

-- Whether `DB` and each of the statements is set.
pub record HealthDbStorage : Type 0 where
  pub file : GoString
  pub is_open : Bool
  pub report_stmt : Bool
  pub infer_stmt : Bool
  pub register_stmt : Bool

unfoldable pub new_health_db_storage : GoString → HealthDbStorage
new_health_db_storage file = record {
  file = file;
  is_open = false;
  report_stmt = false;
  infer_stmt = false;
  register_stmt = false;
}

-- strings.Join(observers, ",")
unfoldable pub join : List GoString → GoString
join [] = []
join (s ∷ []) = s
join (s ∷ t ∷ ss) = s ++ str "," ++ join (t ∷ ss)

module _ {W : Type 0} (sql : Sql W) where
  -- `Open` with the tables: an error of a statement's preparation is dropped.
  unfoldable pub prepare : HealthDbStorage → W → HealthDbStorage × W
  prepare s w =
      let (report, w1) = sql.prepare_report w in
      let (infer, w2) = sql.prepare_inference w1 in
      let (register, w3) = sql.prepare_registration w2 in
      (
        record s {
          is_open = true;
          report_stmt = report;
          infer_stmt = infer;
          register_stmt = register;
        },
        w3,
      )

  -- The flag is false for an error.
  unfoldable pub open_db : HealthDbStorage → W → Bool × HealthDbStorage × W
  unfolding prepare
  open_db s w =
      let (opened, w1) = sql.open_file s.file w in
      let (created, w2) = sql.create w1 in
      let prepared = prepare s w2 in
      if s.is_open
      then (true, s, w)
      else if not opened
      then (false, s, w1)
      else if not created
      then (false, s, sql.hang_up w2)
      else (true, prepared.0, prepared.1)

  -- `Exec` of a statement, which panics on a nil one.
  unfoldable pub execute : Bool → Row → W → Result (Bool × W)
  execute false row w = panics
  execute true row w = returns (sql.exec row w)

  module _ (printer : Printer) where
    -- Nothing is done, without an error, if the database is not open.
    unfoldable pub insert_report : HealthDbStorage → Report → W → Result (Bool × W)
    unfolding execute
    insert_report s report w =
        if not s.is_open
        then returns (true, w)
        else execute s.report_stmt
            (panorama_row report.subject report.observer report.observation.ts
              (metrics_string printer report.observation.metrics))
            w

    unfoldable pub insert_inference : HealthDbStorage → Inference → W → Result (Bool × W)
    unfolding join execute
    insert_inference s inf w =
        if not s.is_open
        then returns (true, w)
        else execute s.infer_stmt
            (inference_row inf.subject (join inf.observers) inf.observation.ts
              (metrics_string printer inf.observation.metrics))
            w

  unfoldable pub insert_registration : HealthDbStorage → Registration → W → Result (Bool × W)
  unfolding execute
  insert_registration s reg w =
      if not s.is_open then returns (true, w) else execute s.register_stmt (registration_row reg) w

  unfoldable pub close_db : HealthDbStorage → W → W
  close_db s w = if s.is_open then sql.hang_up w else w
