-- ===== src/ZooKeeper/Plugin/Ready.antt =====
-- plugin/zookeeper.go: `ValidateFlags`, then `Init`, as cmd/hview-logtail calls them.
use panorama.Prelude.{
  ◌≡◌, refl, GoString, string_eq, Option, some, [], true, arith, Bool-cases, inl, inr,
}
use panorama.Prelude.Map
use panorama.Health.{Score}
use panorama.Filter.{RegexpOps}
use panorama.Filter.Ensured.{Ensures, Ensures-bind, Ensures-all}
use panorama.Filter.Build.{new_field_filter_tree}
use panorama.ZooKeeper.{
  Standard, ZooKeeperEventParser, eid_prefix, or_nil, new_zoo_keeper_event_parser,
}
use panorama.ZooKeeper.Lookup.{IsFor, has-eid_to_addr}
use panorama.ZooKeeper.Ensemble.{LookupIp, parse_ensemble_file, trim_space}
use panorama.ZooKeeper.Plugin.{
  ZooKeeperPlugin, Files, in_ensemble, validate_flags, init, provide_event_parser,
}

-- A plugin that `ValidateFlags` has accepted.
pub record IsValidated (plugin : ZooKeeperPlugin) : Type 0 where
  pub mine : in_ensemble plugin.my_id plugin.ensemble ≡ true

-- A plugin with a parser of its ensemble, which has the plugin's own id.
pub record IsReady (plugin : ZooKeeperPlugin) : Type 0 where
  pub parser : ZooKeeperEventParser
  pub provided : provide_event_parser plugin ≡ some parser
  pub is_for : IsFor plugin.ensemble parser
  pub prefix : parser.entity_id_prefix ≡ eid_prefix
  pub mine : Map.has plugin.my_id parser.eid_addr_map ≡ true

module _ (std : Standard) (lookup_ip : LookupIp) where
  pub validate_flags-IsValidated :
      (files : Files) (plugin : ZooKeeperPlugin)
      → Ensures IsValidated (validate_flags std lookup_ip files plugin)
  unfolding validate_flags
  validate_flags-IsValidated files plugin =
      Ensures-bind _ _ (parse_ensemble_file std lookup_ip files.ensemble_lines) _ (Ensures-all _)
        λ ensemble u. Ensures-bind _ _ (or_nil files.myid_bytes) _ (Ensures-all _) λ bytes v.
          elim (Bool-cases (in_ensemble (trim_space bytes) ensemble)) [
            | inl e ↦ rw e (
                Ensures-bind _ _ (or_nil files.filter_json) _ (Ensures-all _)
                  λ filter_config w. record { mine = e })
            | inr e ↦ rw e tt
          ]

-- The parser that `Init` makes.
abbrev IsParser : ZooKeeperPlugin → ZooKeeperEventParser → Type 0
IsParser plugin parser = IsFor plugin.ensemble parser × (parser.entity_id_prefix ≡ eid_prefix)

mine-IsParser :
    (plugin : ZooKeeperPlugin) (parser : ZooKeeperEventParser)
    → IsValidated plugin
    → IsParser plugin parser
    → Map.has plugin.my_id parser.eid_addr_map ≡ true
unfolding Map.get
mine-IsParser plugin parser v p =
    ground (arith, has-eid_to_addr plugin.my_id plugin.ensemble [], p.0.0, v.mine)

module _ {Re : Type 0} (ops : RegexpOps Re) (parse_float : GoString → Option Score) where
  pub init-IsReady :
      (plugin : ZooKeeperPlugin)
      → IsValidated plugin
      → Ensures IsReady (init ops parse_float plugin)
  unfolding init new_zoo_keeper_event_parser provide_event_parser
  init-IsReady plugin v =
      Ensures-bind (IsParser plugin) IsReady
        (new_zoo_keeper_event_parser eid_prefix plugin.ensemble
          (new_field_filter_tree ops parse_float plugin.filter_config))
        _
        (Ensures-bind _ (IsParser plugin)
          (new_field_filter_tree ops parse_float plugin.filter_config) _ (Ensures-all _)
          λ tree u. ((refl, refl), refl))
        λ parser w. record {
          parser = parser;
          provided = refl;
          is_for = w.0;
          prefix = w.1;
          mine = mine-IsParser plugin parser v w;
        }
