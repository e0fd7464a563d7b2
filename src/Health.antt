-- ===== src/Health.antt =====
-- The messages of idl/health.proto, and the operations of types/health.go on observations.
-- A status outside of the enum's eight values, and a nil sub-message, are not modelled.
pub mod Names
pub mod Printing
pub mod Metrics
use panorama.Prelude.{
  ℕ, ◌-◌, ◌+◌, ◌&&◌, ◌==◌, ◌≡◌, ◌↔◌, Eq, GoString, str, Option, none, some, List, [], ◌∷◌, Bool,
  true, false, nat_beq, string_eq, leb, map, arith, if◌then◌else◌,
}
use panorama.Prelude.Map
use panorama.Prelude.Map.{GoMap}
use panorama.Prelude.Int.{pos}
use panorama.Timestamp.{Timestamp}

pub data Status : Type 0 where
  invalid na healthy pending maybe_unhealthy unhealthy dying dead : Status

-- The enum's numbers.
unfoldable pub number : Status → ℕ
number invalid = 0
number na = 1
number healthy = 2
number pending = 3
number maybe_unhealthy = 4
number unhealthy = 5
number dying = 6
number dead = 7

unfoldable pub status_beq : Status → Status → Bool
status_beq a b = nat_beq (number a) (number b)

pub status_beq_iff : (a b : Status) → (status_beq a b ≡ true) ↔ (a ≡ b)
unfolding status_beq number
status_beq_iff a b = ground arith

instance abbrev pub status_eq : Eq Status
status_eq = record { beq = status_beq; beq_iff = status_beq_iff }

-- A score is a float32: its bit pattern.
abbrev pub Score : Type 0
Score = ℕ

pub record Value : Type 0 where
  pub status : Status
  pub score : Score

pub record Metric : Type 0 where
  pub name : GoString
  pub value : Value

-- The timestamp of an observation is never nil here.
pub record Observation : Type 0 where
  pub ts : Timestamp
  pub metrics : GoMap GoString Metric

pub record Report : Type 0 where
  pub observer : GoString
  pub subject : GoString
  pub observation : Observation

pub record View : Type 0 where
  pub observer : GoString
  pub subject : GoString
  pub observations : List Observation

pub record Panorama : Type 0 where
  pub subject : GoString
  pub views : GoMap GoString View

pub record Inference : Type 0 where
  pub subject : GoString
  pub observers : List GoString
  pub observation : Observation

-- The timestamp of the last of the observations.
unfoldable pub last_ts : Timestamp → List Observation → Timestamp
last_ts ts [] = ts
last_ts ts (val ∷ obs) = last_ts val.ts obs

-- The flag that `SetMetric` returns comes beside the observation that it changes in place.
unfoldable pub set_metric : Observation → GoString → Status → Score → Observation × Bool
set_metric o name status score = elim (Map.get name o.metrics) [
  | none ↦ (o, false)
  | some metric ↦ (
    record o {
      metrics =
          Map.put name (record metric { value = record { status = status; score = score } })
            o.metrics;
    },
    true,
  )
]

unfoldable pub get_metric : Observation → GoString → Option Metric
get_metric o name = Map.get name o.metrics

unfoldable pub add_metric : Observation → GoString → Status → Score → Observation
add_metric o name status score = elim (Map.get name o.metrics) [
  | none ↦ record o {
    metrics =
        Map.put name (record { name = name; value = record { status = status; score = score } })
          o.metrics;
  }
  | some metric ↦ record o {
    metrics =
        Map.put name (record metric { value = record { status = status; score = score } })
          o.metrics;
  }
]

-- Go's float32 zero.
abbrev zero_score : Score
zero_score = 0

-- The loop of `NewMetrics` and `NewObservation`.
unfoldable pub add_names : List GoString → GoMap GoString Metric → GoMap GoString Metric
add_names [] m = m
add_names (name ∷ names) m = add_names names (
    Map.put name (record { name = name; value = record { status = invalid; score = zero_score } })
      m)

unfoldable pub new_metrics : List GoString → GoMap GoString Metric
unfolding add_names
new_metrics names = add_names names []

-- `ptypes.TimestampProto` of the given time is an argument: none where it returns an error.
unfoldable pub new_observation : Option Timestamp → List GoString → Option Observation
unfolding new_metrics
new_observation none names = none
new_observation (some pts) names = some (record { ts = pts; metrics = new_metrics names })

unfoldable pub new_observation_single_metric :
    Option Timestamp → GoString → Status → Score → Option Observation
new_observation_single_metric none name status score = none
new_observation_single_metric (some pts) name status score = some (record {
  ts = pts;
  metrics =
      Map.put name (record { name = name; value = record { status = status; score = score } }) [];
})

-- The loop of `NewReport` over its argument.
unfoldable pub fill_metrics : GoMap GoString Value → GoMap GoString Metric → GoMap GoString Metric
fill_metrics [] m = m
fill_metrics ((k, v) ∷ metrics) m =
    fill_metrics metrics (Map.put k (record { name = k; value = v }) m)

-- `NewReport` with the timestamp of now, whose conversion does not fail.
unfoldable pub new_report : Timestamp → GoString → GoString → GoMap GoString Value → Report
unfolding fill_metrics
new_report now observer subject metrics = record {
  observer = observer;
  subject = subject;
  observation = record { ts = now; metrics = fill_metrics metrics [] };
}

abbrev lower_byte : ℕ → ℕ
lower_byte c = if leb b'A' c && leb c b'Z' then c + 32 else c

-- A byte before a string that is in lower case: in UTF-8, U+0130 becomes 'i' and U+212A 'k'.
unfoldable lower_cons : ℕ → GoString → GoString
lower_cons c [] = lower_byte c ∷ []
lower_cons c (d ∷ []) = if nat_beq c 196 && nat_beq d 176 then b'i' ∷ [] else lower_byte c ∷ d ∷ []
lower_cons c (d ∷ e ∷ s) =
    if nat_beq c 196 && nat_beq d 176
    then b'i' ∷ e ∷ s
    else if nat_beq c 226 && nat_beq d 132 && nat_beq e 170
    then b'k' ∷ s
    else lower_byte c ∷ d ∷ e ∷ s

-- `strings.ToLower`, as far as a comparison with a string of ASCII can tell: the two runes outside
-- ASCII whose lower case is in it are replaced, and the bytes of all other such runes stay.
unfoldable pub to_lower : GoString → GoString
unfolding lower_cons
to_lower [] = []
to_lower (c ∷ s) = lower_cons c (to_lower s)

unfoldable pub status_from_lower : GoString → Status
status_from_lower s =
    if s == str "na"
    then na
    else if s == str "unhealthy"
    then unhealthy
    else if s == str "healthy"
    then healthy
    else if s == str "pending"
    then pending
    else if s == str "maybe_unhealthy"
    then maybe_unhealthy
    else if s == str "dying"
    then dying
    else if s == str "dead"
    then dead
    else invalid

unfoldable pub status_from_full_str : GoString → Status
unfolding status_from_lower to_lower
status_from_full_str s = status_from_lower (to_lower s)

unfoldable pub status_from_str : GoString → Status
status_from_str s =
    if s == str "n"
    then na
    else if s == str "u"
    then unhealthy
    else if s == str "h"
    then healthy
    else if s == str "p"
    then pending
    else if s == str "m"
    then maybe_unhealthy
    else if s == str "d"
    then dying
    else if s == str "dd"
    then dead
    else invalid
