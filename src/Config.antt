-- ===== src/Config.antt =====
-- types/config.go and the configuration that cmd/hview-server/main.go starts with. Writing and reading JSON,
-- and `fmt.Sprintf` of a port, are parameters; exiting is an error.
pub mod Mkrc
use panorama.Prelude.{
  ℕ, ◌==◌, ◌≡◌, refl, sym, ap, ◌∙◌, beq→eq, str_beq_iff, GoString, string_eq, str, Option, none,
  some, List, [], ◌∷◌, ◌++◌, Bool, true, false, ◌||◌, not, nat_beq, length, arith, if◌then◌else◌,
  Option-cases, Bool-cases, inl, inr,
}
use panorama.Prelude.Map
use panorama.Prelude.Map.{GoMap}
use panorama.Prelude.Int.{ℤ, pos, negsuc, ◌+ℤ◌, ◌-ℤ◌, wrap64}
use panorama.Service.{HealthServerConfig}
use panorama.Filter.{Result, returns, errors, panics, ◌>>=◌}
use panorama.Filter.Ensured.{Ensures, Ensures-bind}
use panorama.Logging.{LogLevel, initial_level, set_log_level_string}

pub record GarbageCollectionConfig : Type 0 where
  pub enable : Bool
  pub frequency : ℤ
  pub threshold : ℤ
  pub relative : Bool

-- The whole of `HealthServerConfig`, with the part that the handlers read.
pub record ServerConfig : Type 0 where
  pub handlers : HealthServerConfig
  pub open handlers use *
  pub log_level : GoString
  pub dump_mem_usage : Bool
  pub db_file : GoString
  pub gc_config : GarbageCollectionConfig

abbrev pub no_gc : GarbageCollectionConfig
no_gc = record { enable = false; frequency = pos 0; threshold = pos 0; relative = false }

-- encoding/json, of a configuration: none for an error.
pub record Json : Type 0 where
  pub encode : ServerConfig → Option GoString
  pub decode : GoString → Option ServerConfig

-- The files, by their paths.
abbrev pub Disk : Type 0
Disk = GoMap GoString GoString

-- `LoadConfig` into a new configuration: none for an error.
unfoldable pub load_config : Json → GoString → Disk → Option ServerConfig
load_config json path disk = elim (Map.get path disk) [ none ↦ none | some text ↦ json.decode text ]

-- `SaveConfig`, where the file can be created, written and closed or not: none for an error.
unfoldable pub save_config : Json → Bool → GoString → ServerConfig → Disk → Option Disk
save_config json writable path config disk = elim (json.encode config) [
  | none ↦ none
  | some text ↦ if writable then some (Map.put path text disk) else none
]

-- Go's random numbers: `Intn` panics unless its argument is positive.
abbrev pub intn : (ℕ → ℕ) → ℤ → Result ℤ
intn random (negsuc n) = panics
intn random (pos n) = if nat_beq n 0 then panics else returns (pos (random n))

-- A port of the range, at random.
unfoldable pub random_port : (ℕ → ℕ) → ℤ → ℤ → Result ℤ
random_port random portstart portend =
    intn random (wrap64 (portend -ℤ portstart)) >>= λ n. returns (wrap64 (portstart +ℤ n))

pub record ServerFlags : Type 0 where
  pub rc : GoString
  pub addr : GoString
  pub dbfile : GoString
  pub portstart : ℤ
  pub portend : ℤ
  pub args : List GoString

-- strings.ContainsAny(s, ":")
unfoldable pub has_colon : GoString → Bool
has_colon [] = false
has_colon (c ∷ s) = let rest = has_colon s in if nat_beq c b':' then true else rest

abbrev pub with_port : (ℤ → GoString) → GoString → ℤ → GoString
with_port show_int host port = host ++ str ":" ++ show_int port

-- The checks of a configuration that was loaded: its address is that of its id.
unfoldable pub check_config : ServerConfig → Result ServerConfig
check_config config = elim (Map.get config.id config.peers) [
  | none ↦ panics
  | some myaddr ↦
      if nat_beq (length config.addr) 0
      then returns (record config { handlers = record config.handlers { addr = myaddr } })
      else if not (config.addr == myaddr)
      then panics
      else returns config
]

abbrev pub default_config : GoString → GoString → GoString → ServerConfig
default_config addr id dbfile = record {
  handlers = record {
    addr = addr;
    id = id;
    subjects = [];
    peers = [];
    filter_submission = false;
    hold_seconds = 0;
    hold_len = 0;
  };
  log_level = [];
  dump_mem_usage = false;
  db_file = dbfile;
  gc_config = no_gc;
}

module _ (show_int : ℤ → GoString) (random : ℕ → ℕ) where
  -- The configuration of the flags, without a file.
  unfoldable pub config_of_flags : ServerFlags → Result ServerConfig
  unfolding has_colon random_port
  config_of_flags flags = do
    faddr ←
        if not (has_colon flags.addr)
        then (random_port random flags.portstart flags.portend >>= λ port.
            returns (with_port show_int flags.addr port))
        else returns flags.addr
    elim flags.args [ id ∷ [] ↦ returns (default_config faddr id flags.dbfile) | _ ↦ errors ]

  -- The configuration of `main`, and the level of its logger.
  unfoldable pub choose_config : Json → ServerFlags → Disk → Result (ServerConfig × LogLevel)
  unfolding check_config config_of_flags load_config
  choose_config json flags disk =
      if not (nat_beq (length flags.rc) 0)
      then elim (load_config json flags.rc disk) [
        | none ↦ panics
        | some config ↦ check_config config >>= λ checked.
            returns (checked, set_log_level_string config.log_level initial_level)
      ]
      else (config_of_flags flags >>= λ config. returns (config, initial_level))

-- The address of the configuration is the one that its peers have for its id.
abbrev pub IsConsistent : ServerConfig → Type 0
IsConsistent config = Map.get config.id config.peers ≡ some config.addr

pub check_config_of :
    (config : ServerConfig) → IsConsistent config → check_config config ≡ returns config
unfolding check_config
check_config_of config h = elim (Bool-cases (nat_beq (length config.addr) 0)) [
  | inl e ↦ rw (check_config, h, e)
  | inr e ↦ rw (check_config, h, e, (str_beq_iff config.addr config.addr).1 refl)
]

check_config-IsConsistent : (config : ServerConfig) → Ensures IsConsistent (check_config config)
unfolding check_config
check_config-IsConsistent config = elim (Option-cases (Map.get config.id config.peers)) [
  | inl e ↦ rw (check_config, e) tt
  | inr (myaddr, e) ↦ elim (Bool-cases (nat_beq (length config.addr) 0)) [
    | inl f ↦ rw (check_config, e, f) e
    | inr f ↦ elim (Bool-cases (config.addr == myaddr)) [
      | inr g ↦ rw (check_config, e, f, g) tt
      | inl g ↦ rw (check_config, e, f, g) (e ∙ ap some (sym (beq→eq config.addr myaddr g)))
    ]
  ]
]

-- A server that has a configuration file starts only with an address that is its peers' for its id.
pub choose_config-IsConsistent :
    (show_int : ℤ → GoString) (random : ℕ → ℕ) (json : Json) (flags : ServerFlags) (disk : Disk)
    → nat_beq (length flags.rc) 0 ≡ false
    → Ensures (λ chosen. IsConsistent chosen.0) (choose_config show_int random json flags disk)
unfolding choose_config
choose_config-IsConsistent show_int random json flags disk h =
    elim (Option-cases (load_config json flags.rc disk)) [
      | inl e ↦ rw (choose_config, h, e) tt
      | inr (config, e) ↦
          rw (choose_config, h, e)
            (Ensures-bind IsConsistent _ (check_config config) _ (check_config-IsConsistent config)
              λ checked c. c)
    ]
