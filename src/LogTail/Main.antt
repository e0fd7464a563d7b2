-- ===== src/LogTail/Main.antt =====
-- cmd/hview-logtail/main.go: `main`, from the parsed flags to the end of the log. Dialing and the
-- host's name are parameters; exiting is an error. The pause before monitoring changes nothing.
pub mod Monitored
use panorama.Prelude.{
  ℕ, ◌==◌, GoString, string_eq, str, Option, none, some, List, [], ◌∷◌, ◌++◌, Bool, nat_beq, length,
  if◌then◌else◌,
}
use panorama.Prelude.Int.{ℤ}
use panorama.Health.{Score}
use panorama.Db.{ObserverModule}
use panorama.Filter.{Result, returns, errors, panics, ◌>>=◌, RegexpOps}
use panorama.ZooKeeper.{Standard, Patterns, ZooKeeperEventParser, parse_line, compile_patterns}
use panorama.ZooKeeper.Ensemble.{LookupIp, split}
use panorama.ZooKeeper.Plugin
use panorama.ZooKeeper.Plugin.{ZooKeeperPlugin, Files, new_plugin}
use panorama.LogTail.{Settings, HealthService, Tailed, tail_lines}
use panorama.LogTail.Plugin.{LogTailPlugin, EventParser}

pub record Flags : Type 0 where
  pub settings : Settings
  pub args : List GoString
  pub log : GoString
  pub server : GoString

-- What `main` finds outside: the name of the host, none for an error, and the dialing.
pub record Outside (W : Type 0) : Type 0 where
  pub hostname : Option GoString
  pub dial : GoString → W → Bool × W
  pub service : HealthService W

abbrev pub short_name : Option GoString → GoString
short_name none = str "localhost"
short_name (some host) = (split b'.' host).0

unfoldable pub server_addr : GoString → Option GoString → GoString
unfolding split
server_addr server hostname =
    if nat_beq (length server) 0 then short_name hostname ++ str ":6688" else server

-- A failure that `main` answers by a panic.
abbrev pub or_panic {ℓ} : {A : Type ℓ} → Option A → Result A
or_panic none = panics
or_panic (some a) = returns a

-- A new plugin of the name in the arguments: there is one plugin.
abbrev pub chosen_plugin : {P : Type 0} → P → List GoString → Result P
chosen_plugin new [] = errors
chosen_plugin new (name ∷ args) = if name == str "zookeeper" then returns new else errors

module _ {W : Type 0} (outside : Outside W) where
  -- The connection and the registration: the handle.
  unfoldable pub connect : GoString → ObserverModule → W → Result (ℕ × W)
  unfolding server_addr
  connect server observer_module w =
      let (dialed, w1) = outside.dial (server_addr server outside.hostname) w in
      let (reply, w2) =
        outside.service.register observer_module.module_name observer_module.observer w1 in
      if dialed then (or_panic reply >>= λ handle. returns (handle, w2)) else panics

  module _ {P : Type 0} (plugin : LogTailPlugin P) (new : P) where
    -- `main` up to the monitoring: the plugin, the handle of the reports and the world.
    unfoldable pub set_up : Flags → W → Result (P × ℕ × W)
    unfolding connect
    set_up flags w =
        if nat_beq (length flags.args) 0
        then errors
        else if nat_beq (length flags.log) 0
        then errors
        else do
          chosen ← chosen_plugin new flags.args
          validated ← plugin.validate_flags chosen
          ready ← plugin.init validated
          (handle, w') ←
              if flags.settings.report
              then connect flags.server (plugin.provide_observer_module ready) w
              else returns (0, w)
          returns (ready, handle, w')

    -- `main` with the lines of the log. A plugin without a parser, which would panic at the first
    -- line, panics at once.
    unfoldable pub monitor : Flags → List (GoString × ℤ) → W → Result (Tailed W)
    unfolding set_up
    monitor flags lines w = do
      (ready, handle, w') ← set_up flags w
      parse ← or_panic (plugin.provide_event_parser ready)
      returns (tail_lines flags.settings outside.service handle parse lines [] w')

module _ {Re : Type 0} (ops : RegexpOps Re) (std : Standard) (lookup_ip : LookupIp)
    (parse_float : GoString → Option Score) (files : Files) where
  -- `ParseLine` of the parser that the plugin has.
  abbrev pub with_patterns : Patterns Re → Option ZooKeeperEventParser → Option EventParser
  with_patterns regs none = none
  with_patterns regs (some parser) = some (parse_line ops std regs parser)

  -- The plugin of plugin/zookeeper.go, with its compiled patterns.
  abbrev pub zookeeper : Patterns Re → LogTailPlugin ZooKeeperPlugin
  zookeeper regs = record {
    validate_flags = Plugin.validate_flags std lookup_ip files;
    init = Plugin.init ops parse_float;
    provide_event_parser = λ plugin. with_patterns regs (Plugin.provide_event_parser plugin);
    provide_observer_module = Plugin.provide_observer_module;
  }

  -- The whole program, whose patterns are compiled first.
  unfoldable pub main :
      {W : Type 0} → Outside W → Flags → List (GoString × ℤ) → W → Result (Tailed W)
  unfolding monitor
  main outside flags lines w =
      compile_patterns ops >>= λ regs. monitor outside (zookeeper regs) new_plugin flags lines w
