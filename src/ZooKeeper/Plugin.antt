-- ===== src/ZooKeeper/Plugin.antt =====
-- plugin/zookeeper.go: the plugin's flags and state, as plugin/base.go asks for them. The contents of
-- the files, none where reading fails, and the configuration that `LoadConfig` decodes are arguments.
pub mod Ready
use panorama.Prelude.{
  ◌==◌, ◌≡◌, GoString, string_eq, str, Option, none, some, List, [], ◌∷◌, ◌++◌, Bool, true, false,
  if◌then◌else◌,
}
use panorama.Health.{Score}
use panorama.Filter.{Result, returns, errors, panics, ◌>>=◌, RegexpOps}
use panorama.Filter.Build.{FieldFilterChainConfig, new_field_filter_tree}
use panorama.Db.{ObserverModule}
use panorama.ZooKeeper.{
  ZkServer, Standard, ZooKeeperEventParser, eid_prefix, or_nil, new_zoo_keeper_event_parser,
}
use panorama.ZooKeeper.Ensemble.{LookupIp, parse_ensemble_file, trim_space}

-- The fields before `ValidateFlags` and `Init` are Go's zero values.
pub record ZooKeeperPlugin : Type 0 where
  pub ensemble : List ZkServer
  pub my_id : GoString
  pub filter_config : List FieldFilterChainConfig
  pub parser : Option ZooKeeperEventParser

abbrev pub new_plugin : ZooKeeperPlugin
new_plugin = record { ensemble = []; my_id = []; filter_config = []; parser = none }

-- The loop that sets `found`.
unfoldable pub in_ensemble : GoString → List ZkServer → Bool
in_ensemble myid [] = false
in_ensemble myid (server ∷ ensemble) =
    let rest = in_ensemble myid ensemble in if myid == server.eid then true else rest

-- The files named by the flags.
pub record Files : Type 0 where
  pub ensemble_lines : Option (List GoString)
  pub myid_bytes : Option GoString
  pub filter_json : Option (List FieldFilterChainConfig)

module _ (std : Standard) (lookup_ip : LookupIp) where
  unfoldable pub validate_flags : Files → ZooKeeperPlugin → Result ZooKeeperPlugin
  unfolding in_ensemble
  validate_flags files plugin = do
    ensemble ← parse_ensemble_file std lookup_ip files.ensemble_lines
    bytes ← or_nil files.myid_bytes
    with_id ensemble (trim_space bytes)
    where
      with_id : List ZkServer → GoString → Result ZooKeeperPlugin
      with_id ensemble myid =
          if in_ensemble myid ensemble
          then (or_nil files.filter_json >>= λ filter_config.
              returns (record plugin {
                my_id = myid;
                ensemble = ensemble;
                filter_config = filter_config;
              }))
          else errors

unfoldable pub init :
    {Re : Type 0}
    → RegexpOps Re
    → (GoString → Option Score)
    → ZooKeeperPlugin
    → Result ZooKeeperPlugin
unfolding new_zoo_keeper_event_parser
init ops parse_float plugin = do
  parser ←
      new_zoo_keeper_event_parser eid_prefix plugin.ensemble
        (new_field_filter_tree ops parse_float plugin.filter_config)
  returns (record plugin { parser = some parser })

unfoldable pub provide_event_parser : ZooKeeperPlugin → Option ZooKeeperEventParser
provide_event_parser plugin = plugin.parser

unfoldable pub provide_observer_module : ZooKeeperPlugin → ObserverModule
provide_observer_module plugin = record {
  module_name = str "ZooKeeper";
  observer = eid_prefix ++ plugin.my_id;
}
