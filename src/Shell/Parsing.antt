-- ===== src/Shell/Parsing.antt =====
-- `parseReport` of cmd/hview-client/main.go against the arguments before the first wrong one.
use panorama.Prelude.{
  ◌==◌, ◌≡◌, GoString, string_eq, str, Option, none, some, List, [], ◌∷◌, false, nat_beq, length,
  if◌then◌else◌,
}
use panorama.Prelude.Map
use panorama.Timestamp.{Timestamp}
use panorama.Health.{Status, Score, Value, Metric, Report}
use panorama.Filter.{Result, returns}
use panorama.Shell.{Session, Shown, parse_metric}
use panorama.ZooKeeper.Ensemble.{split}

abbrev pub value_in : Option Metric → Option Value
value_in none = none
value_in (some metric) = some metric.value

module _ (parse_float : GoString → Option Score) where
  abbrev Part : Type 0
  Part = GoString × Status × Score

  -- The parts of the arguments before the first that is not `metric:status:score`.
  unfoldable pub parts_of : List GoString → List Part
  parts_of [] = []
  parts_of (text ∷ args) = elim (parse_metric parse_float (split b':' text)) [
    | none ↦ []
    | some part ↦ part ∷ parts_of args
  ]

  -- The value that the parts give a metric, the last one winning.
  abbrev pub value_for : GoString → List Part → Option Value → Option Value
  value_for name [] value = value
  value_for name ((metric, status, score) ∷ parts) value =
      value_for name parts
        (if metric == name then some (record { status = status; score = score }) else value)

  -- A report that is made of its arguments and of the session before.
  pub record IsParsed (subject : GoString) (args : List GoString) (now : Timestamp)
      (before : Session) (parsed : Result (List Shown × Report × Session)) : Type 0 where
    pub shown : List Shown
    pub report : Report
    pub session : Session
    pub returned : parsed ≡ returns (shown, report, session)
    pub about : report.subject ≡ subject
    pub by :
        report.observer
        ≡ (if nat_beq (length before.observer) 0 then str "XFE_0" else before.observer)
    pub remembered : session.observer ≡ report.observer
    pub handle : session.handle ≡ before.handle
    pub not_empty : nat_beq (length report.observer) 0 ≡ false
    pub ts_of : report.observation.ts ≡ now
    pub values :
        (name : GoString)
        → value_in (Map.get name report.observation.metrics) ≡ value_for name (parts_of args) none
