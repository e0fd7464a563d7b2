-- ===== src/Shell.antt =====
-- cmd/hview-client/main.go: the commands of the interactive client. The stub of the health service,
-- over a state `W` of the world, is a parameter; so are `strconv`, and `sort.Sort`, which gets an
-- order that is none. What a command prints is a list of what it shows.
pub mod Subjects
pub mod Parsing
pub mod Commands
pub mod Main
use panorama.Prelude.{
  ℕ, zero, suc, ◌==◌, ◌≡◌, GoString, string_eq, str, Option, none, some, List, [], ◌∷◌, ◌++◌, Bool,
  true, false, ◌&&◌, ◌||◌, not, nat_beq, ltb, leb, length, map, if◌then◌else◌,
}
use panorama.Prelude.Map
use panorama.Prelude.Map.{GoMap}
use panorama.Prelude.Int.{ℤ, pos, negsuc, ltb_ℤ}
use panorama.Timestamp.{Timestamp}
use panorama.Health.{
  Status, Score, invalid, status_beq, status_from_str, Observation, Report, View, Panorama,
  Inference, new_observation, add_metric,
}
use panorama.Exchange.{ReplyStatus}
use panorama.Filter.{Result, returns, errors, panics, ◌>>=◌}
use panorama.ZooKeeper.Ensemble.{split}

pub record Session : Type 0 where
  pub observer : GoString
  pub handle : ℕ

-- The requests of the stub: none for an error, where the reply is nil.
pub record HealthClient (W : Type 0) : Type 0 where
  pub register : GoString → GoString → W → Option ℕ × W
  pub submit_report : ℕ → Report → W → Option ReplyStatus × W
  pub get_latest_report : GoString → W → Option Report × W
  pub get_view : GoString → GoString → W → Option View × W
  pub get_panorama : GoString → W → Option Panorama × W
  pub get_inference : GoString → W → Option Inference × W
  pub dump_panorama : W → Option (GoMap GoString Panorama) × W
  pub dump_inference : W → Option (GoMap GoString Inference) × W
  pub get_observed_subjects : W → Option (GoMap GoString Timestamp) × W
  pub ping : GoString → Timestamp → W → Option Timestamp × W

-- What is shown, on the standard output or the standard error.
pub data Shown : Type 0 where
  shows_help shows_error : Shown
  shows_report : Report → Shown
  shows_view : View → Shown
  shows_panorama : Panorama → Shown
  shows_inference : Option Inference → Shown
  shows_title : GoString → Shown
  shows_subject : GoString → Timestamp → Shown
  shows_status : ReplyStatus → Shown
  shows_pong : Timestamp → Shown
  shows_observer : GoString → Shown

-- A command's end: with what it shows, or in a loop that runs `get` or `dump` again after some
-- seconds, for ever.
pub data Ran (W : Type 0) : Type 0 where
  ends : Bool → List Shown → Session → W → Ran W
  repeats_get : ℤ → List GoString → Ran W
  repeats_dump : ℤ → List GoString → Ran W

-- args[i]
unfoldable pub arg : ℕ → List GoString → Result GoString
arg i [] = panics
arg zero (a ∷ args) = returns a
arg (suc i) (a ∷ args) = arg i args

-- The part `metric:status:score` of a report: none where the loop breaks.
unfoldable pub parse_metric :
    (GoString → Option Score) → GoString × List GoString → Option (GoString × Status × Score)
parse_metric parse_float (metric, status ∷ score ∷ []) =
    if status_beq (status_from_str status) invalid then none else elim (parse_float score) [
      | none ↦ none
      | some value ↦ some (metric, status_from_str status, value)
    ]
parse_metric parse_float (metric, _) = none

abbrev pub or_default : GoString → GoString → GoString
or_default default [] = default
or_default default (c ∷ s) = c ∷ s

module _ (parse_float : GoString → Option Score) where
  -- The loop over the arguments from the third on; an error is shown where it breaks.
  unfoldable pub parse_metrics : List GoString → Observation → List Shown × Observation
  unfolding split parse_metric
  parse_metrics [] observation = ([], observation)
  parse_metrics (text ∷ args) observation = elim (parse_metric parse_float (split b':' text)) [
    | none ↦ (shows_error ∷ [], observation)
    | some (metric, status, score) ↦ parse_metrics args (add_metric observation metric status score)
  ]

  -- `parseReport` at a time whose conversion does not fail. It sets the global `observer`.
  unfoldable pub parse_report :
      List GoString → Timestamp → Session → Result (List Shown × Report × Session)
  unfolding parse_metrics
  parse_report (cmd ∷ subject ∷ args) now session =
      let (shown, observation) = parse_metrics args (record { ts = now; metrics = [] }) in
      let observer = or_default (str "XFE_0") session.observer in
      returns (
        shown,
        record { observer = observer; subject = subject; observation = observation },
        record session { observer = observer },
      )
  parse_report _ now session = panics

module _ {W : Type 0} (client : HealthClient W) where
  -- The error, and the session: the observer is set before the request.
  unfoldable pub register : Session → W → Bool × Session × W
  register session w =
      let observer = or_default (str "client") session.observer in
      let (reply, w') = client.register (str "default") observer w in
      elim reply [
        | none ↦ (false, record session { observer = observer }, w')
        | some handle ↦ (true, record { observer = observer; handle = handle }, w')
      ]

  abbrev pub shown_or_error {ℓ} : {A : Type ℓ} → (A → Shown) → Option A → List Shown
  shown_or_error show none = shows_error ∷ []
  shown_or_error show (some a) = show a ∷ []

  abbrev pub help : W → Result (List Shown × W)
  help w = returns (shows_help ∷ [], w)

  -- The case "inference" of `exeGet`, which goes on after it has shown the help.
  unfoldable pub get_inference : List GoString → W → Result (List Shown × W)
  unfolding arg
  get_inference args w = do
    subject ← arg 2 args
    let (reply, w') = client.get_inference subject w
    returns (
      (if nat_beq (length args) 3 then [] else shows_help ∷ [])
          ++ shown_or_error (λ inference. shows_inference (some inference)) reply,
      w',
    )

  unfoldable pub exe_get : List GoString → W → Result (List Shown × W)
  unfolding get_inference
  exe_get [] w = panics
  exe_get (cmd ∷ []) w = help w
  exe_get (cmd ∷ what ∷ args) w =
      if what == str "report"
      then elim args [
        | subject ∷ [] ↦
            let (reply, w') = client.get_latest_report subject w in
            returns (shown_or_error shows_report reply, w')
        | _ ↦ help w
      ]
      else if what == str "view"
      then elim args [
        | observer ∷ subject ∷ [] ↦
            let (reply, w') = client.get_view observer subject w in
            returns (shown_or_error shows_view reply, w')
        | _ ↦ help w
      ]
      else if what == str "panorama"
      then elim args [
        | subject ∷ [] ↦
            let (reply, w') = client.get_panorama subject w in
            returns (shown_or_error shows_panorama reply, w')
        | _ ↦ help w
      ]
      else if what == str "inference"
      then get_inference (cmd ∷ what ∷ args) w
      else help w
