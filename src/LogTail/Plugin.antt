-- ===== src/LogTail/Plugin.antt =====
-- plugin/base.go, with `EventParser` of types/event.go: the interface between the daemon and a plugin,
-- and the laws of a plugin on which the daemon relies.
use panorama.Prelude.{◌≡◌, GoString, Option, some}
use panorama.Db.{ObserverModule}
use panorama.Filter.{Result}
use panorama.Filter.Ensured.{Ensures}
use panorama.ZooKeeper.{Event}

-- `ParseLine`
abbrev pub EventParser : Type 0
EventParser = GoString → Result Event

-- The operations of a plugin with the state `P`. The flags that it provides are parsed before.
pub record LogTailPlugin (P : Type 0) : Type 0 where
  pub validate_flags : P → Result P
  pub init : P → Result P
  pub provide_event_parser : P → Option EventParser
  pub provide_observer_module : P → ObserverModule

-- A plugin that provides a parser.
pub record IsProvided {P : Type 0} (plugin : LogTailPlugin P) (IsGood : P → EventParser → Type 0)
    (p : P) : Type 0 where
  pub parse : EventParser
  pub provided : plugin.provide_event_parser p ≡ some parse
  pub is_good : IsGood p parse

-- A plugin whose flags are validated is one that can be initialised to a good one, if at all.
pub record LogTailPluginLaws {P : Type 0} (plugin : LogTailPlugin P)
    (IsGood : P → EventParser → Type 0) : Type 1 where
  pub IsChecked : P → Type 0
  pub validates : (p : P) → Ensures IsChecked (plugin.validate_flags p)
  pub initialises : (p : P) → IsChecked p → Ensures (IsProvided plugin IsGood) (plugin.init p)
