-- ===== src/LogTail/Main/Monitored.antt =====
-- The whole daemon of cmd/hview-logtail/main.go: where the events that it tries to report come from. It
-- uses a plugin by its laws, which hold of the one of plugin/zookeeper.go.
use panorama.Prelude.{
  ℕ, ◌≡◌, ◌⊎◌, refl, false, true, ap, GoString, Option, none, some, List, [], ◌∷◌, ◌&&◌, All,
  nat_beq, length, if◌then◌else◌, Bool-cases, inl, inr,
}
use panorama.Prelude.Int.{ℤ}
use panorama.Health.{Score}
use panorama.Filter.{Result, returns, RegexpOps, find_string_submatch_map}
use panorama.Filter.Ensured.{
  Ensures, Ensures-bind, Ensures-imp, Ensures-all, Ensures-known, Result-cases,
}
use panorama.ZooKeeper.{Event, Standard, Patterns, parse_line, compile_patterns}
use panorama.ZooKeeper.Attributed.{IsAttributed, parse_line-IsAttributed}
use panorama.ZooKeeper.Ensemble.{LookupIp}
use panorama.ZooKeeper.Plugin.{ZooKeeperPlugin, Files, new_plugin, init}
use panorama.ZooKeeper.Plugin.Ready.{IsValidated, IsReady, validate_flags-IsValidated, init-IsReady}
use panorama.LogTail.{
  Settings, HealthService, LastReportTime, Attempt, Tailed, sub_time, handle_event, tail_lines,
  after,
}
use panorama.LogTail.Plugin.{LogTailPlugin, EventParser, IsProvided, LogTailPluginLaws}
use panorama.LogTail.Main.{
  Flags, Outside, set_up, connect, chosen_plugin, monitor, main, zookeeper, with_patterns,
}

-- The log has the line.
abbrev pub IsLine : GoString → List (GoString × ℤ) → Type 0
IsLine line [] = false ≡ true
IsLine line ((text, now) ∷ lines) = (line ≡ text) ⊎ IsLine line lines

module _ (P : Event → Type 0) where
  -- Every event that the daemon has tried to report.
  abbrev pub AllTried : {W : Type 0} → Tailed W → Type 0
  AllTried none = Unit
  AllTried (some (attempts, last, w)) = All (λ attempt. P attempt.0) attempts

  abbrev Tried : Option Attempt → Type 0
  Tried none = Unit
  Tried (some attempt) = P attempt.0

  after-AllTried :
      {W : Type 0} (attempt : Option Attempt) (tailed : Tailed W)
      → Tried attempt
      → AllTried tailed
      → AllTried (after attempt tailed)
  after-AllTried attempt none p h = tt
  after-AllTried none (some (attempts, last, w)) p h = h
  after-AllTried (some attempt) (some (attempts, last, w)) p h = (p, h)

  module _ (flags : Settings) {W : Type 0} (service : HealthService W) (handle : ℕ)
      (parse : GoString → Result Event) where
    handle_event-Tried :
        (event : Event) (now : ℤ) (last : LastReportTime) (w : W)
        → P event
        → Tried (handle_event flags service handle parse event now last w).0
    unfolding handle_event
    handle_event-Tried event now last w p =
        elim (Bool-cases (flags.checks_stale && flags.is_stale (sub_time now event.time))) [
          | inl e ↦ rw (handle_event, e) tt
          | inr e ↦ elim (Bool-cases flags.report) [
            | inl f ↦ rw (handle_event, e, f) p
            | inr f ↦ rw (handle_event, e, f) tt
          ]
        ]

    tail_lines-AllTried :
        (lines : List (GoString × ℤ)) (last : LastReportTime) (w : W)
        → ((line : GoString) (event : Event)
            → IsLine line lines
            → parse line ≡ returns event
            → P event)
        → AllTried (tail_lines flags service handle parse lines last w)
    unfolding tail_lines
    tail_lines-AllTried [] last w h = tt
    tail_lines-AllTried ((line, now) ∷ lines) last w h = elim (Result-cases (parse line)) [
      | inr (inr e) ↦ rw (tail_lines, e) tt
      | inr (inl e) ↦
          rw (tail_lines, e) (tail_lines-AllTried lines last w λ l event m. h l event (inr m))
      | inl (event, e) ↦
          rw (tail_lines, e)
            (after-AllTried _ _ (handle_event-Tried event now last w (h line event (inl refl) e))
              (tail_lines-AllTried lines _ _ λ l event m. h l event (inr m)))
    ]

module _ {P : Type 0} (plugin : LogTailPlugin P) (IsGood : P → EventParser → Type 0) where
  -- The set-up has made a plugin ready, and what the daemon has tried to report is found by that
  -- plugin's parser in lines of the log.
  pub record IsMonitored {W : Type 0} (new : P) (outside : Outside W) (flags : Flags)
      (lines : List (GoString × ℤ)) (w : W) (tailed : Tailed W) : Type 0 where
    pub ready : P
    pub handle : ℕ
    pub reached : W
    pub started : set_up outside plugin new flags w ≡ returns (ready, handle, reached)
    pub provided : IsProvided plugin IsGood ready
    pub tried :
        AllTried
          (λ event. (line : GoString) × IsLine line lines × (provided.parse line ≡ returns event))
          tailed

  module _ (laws : LogTailPluginLaws plugin IsGood) (new : P) {W : Type 0}
      (outside : Outside W) where
    set_up-IsProvided :
        (flags : Flags) (w : W)
        → Ensures
            (λ started. IsProvided plugin IsGood started.0)
            (set_up outside plugin new flags w)
    unfolding set_up
    set_up-IsProvided flags w = elim (Bool-cases (nat_beq (length flags.args) 0)) [
      | inl e ↦ rw (set_up, e) tt
      | inr e ↦ elim (Bool-cases (nat_beq (length flags.log) 0)) [
        | inl f ↦ rw (set_up, e, f) tt
        | inr f ↦
            rw (set_up, e, f)
              (Ensures-bind _ _ (chosen_plugin new flags.args) _ (Ensures-all _) λ chosen u.
                Ensures-bind _ _ (plugin.validate_flags chosen) _ (laws.validates chosen)
                  λ validated v.
                    Ensures-bind _ _ (plugin.init validated) _ (laws.initialises validated v)
                      λ ready r.
                        Ensures-bind _ _
                          (if flags.settings.report
                            then connect outside flags.server (plugin.provide_observer_module ready)
                                w
                            else returns (0, w))
                          _ (Ensures-all _) λ connected c. r)
      ]
    ]

    monitor-IsMonitored :
        (flags : Flags) (lines : List (GoString × ℤ)) (w : W)
        → Ensures (IsMonitored new outside flags lines w) (monitor outside plugin new flags lines w)
    unfolding monitor
    monitor-IsMonitored flags lines w =
        Ensures-bind _ (IsMonitored new outside flags lines w) (set_up outside plugin new flags w) _
          (Ensures-known _ (set_up outside plugin new flags w) (set_up-IsProvided flags w))
          λ started (known, provided). rw provided.provided (record {
            ready = started.0;
            handle = started.1;
            reached = started.2;
            started = known;
            provided = provided;
            tried =
                tail_lines-AllTried _ flags.settings outside.service started.1 provided.parse lines
                  [] started.2 λ line event m e. (line, m, e);
          })

module _ {Re : Type 0} (ops : RegexpOps Re) (std : Standard) (lookup_ip : LookupIp)
    (parse_float : GoString → Option Score) (files : Files) where
  -- A plugin whose parser knows its ensemble, to which its own id belongs, and attributes events.
  abbrev pub IsAttributing : Patterns Re → ZooKeeperPlugin → EventParser → Type 0
  IsAttributing regs plugin parse =
      (ready : IsReady plugin) × ((line : GoString) (event : Event)
        → parse line ≡ returns event
        → IsAttributed ops std regs plugin.ensemble ready.parser
            (find_string_submatch_map ops regs.zkline_reg line []) event)

  zookeeper_laws :
      (regs : Patterns Re)
      → LogTailPluginLaws (zookeeper ops std lookup_ip parse_float files regs) (IsAttributing regs)
  zookeeper_laws regs = record {
    IsChecked = IsValidated;
    validates = validate_flags-IsValidated std lookup_ip files;
    initialises = λ plugin checked.
        Ensures-imp _ _ (init ops parse_float plugin) (init-IsReady ops parse_float plugin checked)
          λ ready r. record {
            parse = parse_line ops std regs r.parser;
            provided = ap (with_patterns ops std lookup_ip parse_float files regs) r.provided;
            is_good = (
              r,
              λ line event e.
                  parse_line-IsAttributed ops std regs ready.ensemble r.parser line event r.is_for
                    e,
            );
          };
  }

  -- Every event that the daemon tries to report is one that `ParseLine` finds in a line of the log and
  -- attributes as it should, with the compiled patterns and the parser of the plugin that the set-up
  -- has made ready, which is a parser of the plugin's ensemble, to which the daemon's own id belongs.
  pub main-IsMonitored :
      {W : Type 0} (outside : Outside W) (flags : Flags) (lines : List (GoString × ℤ)) (w : W)
      → Ensures
          (λ tailed.
            (regs : Patterns Re) × (compile_patterns ops ≡ returns regs)
            × IsMonitored
                (zookeeper ops std lookup_ip parse_float files regs)
                (IsAttributing regs)
                new_plugin
                outside
                flags
                lines
                w
                tailed)
          (main ops std lookup_ip parse_float files outside flags lines w)
  unfolding main
  main-IsMonitored outside flags lines w =
      Ensures-bind _ _ (compile_patterns ops) _
        (Ensures-known _ (compile_patterns ops) (Ensures-all (compile_patterns ops)))
        λ regs (known, u).
          Ensures-imp _ _
            (monitor outside (zookeeper ops std lookup_ip parse_float files regs) new_plugin flags
              lines w)
            (monitor-IsMonitored (zookeeper ops std lookup_ip parse_float files regs)
              (IsAttributing regs) (zookeeper_laws regs) new_plugin outside flags lines w)
            λ tailed m. (regs, known, m)
