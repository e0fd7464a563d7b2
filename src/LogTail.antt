-- ===== src/LogTail.antt =====
-- cmd/hview-logtail/main.go: the daemon that reports the events of a log. The health service, over a
-- state `W` of the world, and float64 seconds are parameters. A line comes with the time at which it
-- is read; a log that is closed is the end of the list. Printing is left out.
pub mod Merged
pub mod Plugin
pub mod Main
use panorama.Prelude.{
  ℕ, ◌==◌, ◌≡◌, ◌↔◌, refl, Eq, nat_beq_iff, GoString, string_eq, str_beq, str_beq_iff, Option, none,
  some, List, [], ◌∷◌, Bool, true, false, ◌&&◌, not, nat_beq, ltb, leb, arith, if◌then◌else◌,
}
use panorama.Prelude.Map
use panorama.Prelude.Map.{GoMap}
use panorama.Prelude.Int.{ℤ, pos, negsuc, ◌-ℤ◌, pos_part, neg_part}
use panorama.Timestamp.{Timestamp}
use panorama.Health.{
  Status, Score, status_beq, status_beq_iff, Observation, new_observation_single_metric,
}
use panorama.Exchange.{ReplyStatus}
use panorama.Filter.{Result, returns, errors, panics}
use panorama.ZooKeeper.{Event}

-- `report_key`, with the score as an int32.
pub record ReportKey : Type 0 where
  pub subject : GoString
  pub context : GoString
  pub status : Status
  pub score : ℤ

abbrev pub int_beq : ℤ → ℤ → Bool
int_beq a b = nat_beq (pos_part a) (pos_part b) && nat_beq (neg_part a) (neg_part b)

unfoldable pub key_beq : ReportKey → ReportKey → Bool
key_beq a b =
    (a.subject == b.subject)
    && (a.context == b.context)
    && status_beq a.status b.status
    && int_beq a.score b.score

int_beq_iff : (a b : ℤ) → (int_beq a b ≡ true) ↔ (a ≡ b)
int_beq_iff a b = ground arith

pub key_beq_iff : (a b : ReportKey) → (key_beq a b ≡ true) ↔ (a ≡ b)
unfolding key_beq
key_beq_iff a b = ground (
  arith,
  str_beq_iff a.subject b.subject,
  str_beq_iff a.context b.context,
  status_beq_iff a.status b.status,
  int_beq_iff a.score b.score,
)

instance abbrev pub key_eq : Eq ReportKey
key_eq = record { beq = key_beq; beq_iff = key_beq_iff }

-- `a.Sub(b)` of two times: a duration, which stays within an int64.
unfoldable pub sub_time : ℤ → ℤ → ℤ
sub_time a b =
    let d = a -ℤ b in
    if leb 9223372036854775808 (pos_part d)
    then pos 9223372036854775807
    else if ltb 9223372036854775808 (neg_part d)
    then negsuc 9223372036854775807
    else d

-- The flags of the daemon: whether a cutoff is greater than 0, and the test of a duration's seconds
-- against it; `int32` of a float32; and `ptypes.TimestampProto`.
pub record Settings : Type 0 where
  pub report : Bool
  pub checks_stale : Bool
  pub is_stale : ℤ → Bool
  pub merges : Bool
  pub is_frequent : ℤ → Bool
  pub to_int32 : Score → ℤ
  pub timestamp_proto : ℤ → Option Timestamp

-- The requests to the service, which it answers by none for an error. The observation of a report
-- is nil if its time cannot be converted.
pub record HealthService (W : Type 0) : Type 0 where
  pub register : GoString → GoString → W → Option ℕ × W
  pub submit_report : ℕ → GoString → GoString → Option Observation → W → Option ReplyStatus × W

abbrev pub LastReportTime : Type 0
LastReportTime = GoMap ReportKey ℤ

-- What became of an event: it was too frequent, the call failed, or the service answered.
pub data Outcome : Type 0 where
  skipped failed_call : Outcome
  answered : ReplyStatus → Outcome

-- An event and what became of it.
abbrev pub Attempt : Type 0
Attempt = Event × Outcome

abbrev pub add_attempt : Option Attempt → List Attempt → List Attempt
add_attempt none attempts = attempts
add_attempt (some attempt) attempts = attempt ∷ attempts

-- The attempts at the events of a log, the map and the world: none where the parser panics.
abbrev pub Tailed : Type 0 → Type 0
Tailed W = Option (List Attempt × LastReportTime × W)

abbrev pub after : {W : Type 0} → Option Attempt → Tailed W → Tailed W
after attempt none = none
after attempt (some (attempts, last, w)) = some (add_attempt attempt attempts, last, w)

module _ (flags : Settings) where
  unfoldable pub key_of : Event → ReportKey
  key_of event = record {
    subject = event.subject;
    context = event.context;
    status = event.status;
    score = flags.to_int32 event.score;
  }

  abbrev pub is_frequent_after : Option ℤ → ℤ → Bool
  is_frequent_after none time = false
  is_frequent_after (some ts) time = flags.is_frequent (sub_time time ts)

  abbrev pub note_answer : Event → LastReportTime → Option ReplyStatus → Outcome × LastReportTime
  note_answer event last none = (failed_call, last)
  note_answer event last (some reply) = (answered reply, Map.put (key_of event) event.time last)

  module _ {W : Type 0} (service : HealthService W) (handle : ℕ) where
    unfoldable pub report_event : Event → LastReportTime → W → Outcome × LastReportTime × W
    unfolding key_of
    report_event event last w =
        if flags.merges && is_frequent_after (Map.get (key_of event) last) event.time
        then (skipped, last, w)
        else let observation =
            new_observation_single_metric (flags.timestamp_proto event.time) event.context
              event.status event.score in
          let (reply, w') = service.submit_report handle event.id event.subject observation w in
          let (outcome, last') = note_answer event last reply in (outcome, last', w')

    module _ (parse : GoString → Result Event) where
      -- The body of the loop: the attempt, if one is made.
      unfoldable pub handle_event :
          Event → ℤ → LastReportTime → W → Option Attempt × LastReportTime × W
      unfolding report_event
      handle_event event now last w =
          if flags.checks_stale && flags.is_stale (sub_time now event.time)
          then (none, last, w)
          else if flags.report
          then (let (outcome, last', w') = report_event event last w in
              (some (event, outcome), last', w'))
          else (none, last, w)

      -- The loop over the lines: none where the parser panics.
      unfoldable pub tail_lines : List (GoString × ℤ) → LastReportTime → W → Tailed W
      unfolding handle_event
      tail_lines [] last w = some ([], last, w)
      tail_lines ((line, now) ∷ lines) last w = elim (parse line) [
        | panics ↦ none
        | errors ↦ tail_lines lines last w
        | returns event ↦
            let (attempt, last', w') = handle_event event now last w in
            after attempt (tail_lines lines last' w')
      ]
