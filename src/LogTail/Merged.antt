-- ===== src/LogTail/Merged.antt =====
-- The reports of cmd/hview-logtail/main.go against the history of what the service has answered.
use panorama.Prelude.{
  ℕ, ◌==◌, ◌≡◌, GoString, Option, none, some, List, [], ◌∷◌, Bool, true, false, ◌&&◌, if◌then◌else◌,
}
use panorama.Prelude.Map
use panorama.Prelude.Int.{ℤ}
use panorama.Filter.{Result}
use panorama.ZooKeeper.{Event}
use panorama.LogTail.{
  ReportKey, key_eq, Settings, HealthService, LastReportTime, Outcome, skipped, failed_call,
  answered, key_of, is_frequent_after, Attempt, Tailed,
}

abbrev pub is_skipped : Outcome → Bool
is_skipped skipped = true
is_skipped failed_call = false
is_skipped (answered reply) = false

module _ (flags : Settings) where
  -- The time of the latest event of a key that the service has answered, in a history whose latest
  -- attempt is its first.
  abbrev pub last_answered : ReportKey → List Attempt → Option ℤ
  last_answered key [] = none
  last_answered key ((event, answered reply) ∷ older) =
      if key_of flags event == key then some event.time else last_answered key older
  last_answered key ((event, failed_call) ∷ older) = last_answered key older
  last_answered key ((event, skipped) ∷ older) = last_answered key older

  -- After the history, the attempts skip exactly what is too frequent.
  abbrev pub IsMerged : List Attempt → List Attempt → Type 0
  IsMerged older [] = Unit
  IsMerged older ((event, outcome) ∷ attempts) =
      (is_skipped outcome ≡ (
        flags.merges
        && is_frequent_after flags (last_answered (key_of flags event) older) event.time))
      × IsMerged ((event, outcome) ∷ older) attempts

  -- The map has the latest times of the history.
  abbrev Agrees : LastReportTime → List Attempt → Type 0
  Agrees last older = (key : ReportKey) → Map.get key last ≡ last_answered key older

  module _ {W : Type 0} (service : HealthService W) (handle : ℕ) where
    -- What the history says of the next event.
    abbrev is_frequent_in : List Attempt → Event → Bool
    is_frequent_in older event =
        flags.merges
        && is_frequent_after flags (last_answered (key_of flags event) older) event.time

    abbrev Reported : List Attempt → Event → Outcome × LastReportTime → Type 0
    Reported older event (outcome, last) =
        (is_skipped outcome ≡ is_frequent_in older event) × Agrees last ((event, outcome) ∷ older)

    module _ (parse : GoString → Result Event) where
      -- The daemon goes on to the end of the log, and its attempts follow the history.
      abbrev pub FollowsTo : List Attempt → Tailed W → Type 0
      FollowsTo older none = ⊥
      FollowsTo older (some (attempts, last, w)) = IsMerged older attempts
