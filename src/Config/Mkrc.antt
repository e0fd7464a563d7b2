-- ===== src/Config/Mkrc.antt =====
-- cmd/hview-mkrc/main.go: the configuration file of one of several servers. `fmt.Sprintf` with the
-- patterns of the flags is a parameter. A failure is `LogF` at the initial level: an exit.
use panorama.Prelude.{
  ℕ, zero, suc, ◌+◌, ◌≡◌, subst, GoString, string_eq, str, none, some, List, [], ◌∷◌, Bool, true,
  false, ◌||◌, not, nat_beq, length, arith, str_beq_iff, if◌then◌else◌, Option-cases, Bool-cases,
  inl, inr,
}
use panorama.Prelude.Map
use panorama.Prelude.Map.{GoMap, get-put}
use panorama.Prelude.Int.{ℤ, pos, ltb_ℤ, ◌+ℤ◌, wrap64}
use panorama.Filter.{Result, returns, errors, ◌>>=◌}
use panorama.Filter.Ensured.{Ensures, Ensures-bind, Ensures-all}
use panorama.Logging.{initial_level, set_log_level_string}
use panorama.ZooKeeper.Ensemble.{split}
use panorama.Config.{
  ServerConfig, ServerFlags, no_gc, random_port, with_port, choose_config, IsConsistent, Json, Disk,
  load_config, save_config, check_config_of,
}

-- A negative `nserver` makes no peers, as 0 does.
pub record MkrcFlags : Type 0 where
  pub id : GoString
  pub nserver : ℕ
  pub addressp : GoString
  pub namestart : ℤ
  pub sidstart : ℤ
  pub portstart : ℤ
  pub portend : ℤ
  pub fixport : ℤ
  pub subjects : GoString
  pub filter : Bool
  pub dbfile : GoString

-- `fmt.Sprintf` of a name, of a server's address and of a port.
pub record Formats : Type 0 where
  pub name : ℤ → GoString
  pub address : GoString → ℤ → GoString
  pub int : ℤ → GoString

module _ (formats : Formats) (random : ℕ → ℕ) where
  -- The first port, and whether it is incremented.
  unfoldable pub first_port : MkrcFlags → Result (ℤ × Bool)
  first_port flags =
      if ltb_ℤ (pos 0) flags.fixport
      then returns (flags.fixport, false)
      else if not (ltb_ℤ (pos 0) flags.portstart) || not (ltb_ℤ (pos 0) flags.portend)
      then errors
      else if ltb_ℤ flags.portend flags.portstart
      then errors
      else (random_port random flags.portstart flags.portend >>= λ p. returns (p, true))

  abbrev pub next_if : Bool → ℤ → ℤ
  next_if inc n = if inc then wrap64 (n +ℤ pos 1) else n

  abbrev pub has_address : MkrcFlags → Bool
  has_address flags = not (nat_beq (length flags.addressp) 0)

  -- The loop over the servers from the i-th on, of which so many are left.
  unfoldable pub make_peers :
      MkrcFlags → Bool → ℕ → ℕ → ℤ → ℤ → GoMap GoString GoString → GoMap GoString GoString
  make_peers flags inc_p zero i p s peers = peers
  make_peers flags inc_p (suc left) i p s peers =
      let eid = formats.name (wrap64 (pos i +ℤ flags.namestart)) in
      let host = if has_address flags then formats.address flags.addressp s else str "localhost" in
      make_peers flags inc_p left (i + 1) (next_if inc_p p) (next_if (has_address flags) s)
        (Map.put eid (with_port formats.int host p) peers)

  abbrev pub subjects_of : GoString → List GoString
  subjects_of [] = []
  subjects_of (c ∷ s) = (split b',' (c ∷ s)).0 ∷ (split b',' (c ∷ s)).1

  -- `main` up to the output of the configuration.
  unfoldable pub make_config : MkrcFlags → Result ServerConfig
  unfolding first_port make_peers
  make_config flags =
      if nat_beq (length flags.id) 0
      then errors
      else (first_port flags >>= λ port.
          if ltb_ℤ flags.sidstart (pos 0)
          then errors
          else let peers = make_peers flags port.1 flags.nserver 0 port.0 flags.sidstart [] in
            elim (Map.get flags.id peers) [
              | none ↦ errors
              | some addr ↦ returns (record {
                handlers = record {
                  addr = addr;
                  id = flags.id;
                  subjects = subjects_of flags.subjects;
                  peers = peers;
                  filter_submission = flags.filter;
                  hold_seconds = 0;
                  hold_len = 0;
                };
                log_level = [];
                dump_mem_usage = false;
                db_file = flags.dbfile;
                gc_config = no_gc;
              })
            ])

  make_config-IsConsistent : (flags : MkrcFlags) → Ensures IsConsistent (make_config flags)
  unfolding make_config
  make_config-IsConsistent flags = elim (Bool-cases (nat_beq (length flags.id) 0)) [
    | inl e ↦ rw (make_config, e) tt
    | inr e ↦
        rw (make_config, e)
          (Ensures-bind _ _ (first_port flags) _ (Ensures-all _) λ port u.
            elim (Bool-cases (ltb_ℤ flags.sidstart (pos 0))) [
              | inl f ↦ rw f tt
              | inr f ↦
                  elim (Option-cases (
                    Map.get flags.id
                      (make_peers flags port.1 flags.nserver 0 port.0 flags.sidstart []))) [
                        | inl g ↦ rw (f, g) tt
                        | inr (addr, g) ↦ rw (f, g) g
                      ]
            ])
  ]

  -- What a saved configuration is when it is loaded, if JSON is read back as it was written.
  load_config-save_config :
      (json : Json) (writable : Bool) (path : GoString) (config : ServerConfig) (disk disk' : Disk)
      → ((text : GoString) → json.encode config ≡ some text → json.decode text ≡ some config)
      → save_config json writable path config disk ≡ some disk'
      → load_config json path disk' ≡ some config
  unfolding load_config save_config
  load_config-save_config json writable path config disk disk' reads h =
      elim (Option-cases (json.encode config)) [
        | inl e ↦ absurd (ground (arith, h, e))
        | inr (text, e) ↦ elim (Bool-cases writable) [
          | inr f ↦ absurd (ground (arith, h, e, f))
          | inl f ↦
              ground
                (arith, h, e, f, get-put path path text disk, str_beq_iff path path, reads text e)
        ]
      ]

  -- The configuration that `hview-mkrc` makes and saves to a file, `hview-server` loads from it and
  -- accepts as it is, if JSON reads this configuration back as it was written.
  pub choose_config-make_config :
      (json : Json) (flags : MkrcFlags) (config : ServerConfig) (writable : Bool)
      (server : ServerFlags) (disk disk' : Disk)
      → make_config flags ≡ returns config
      → nat_beq (length server.rc) 0 ≡ false
      → ((text : GoString) → json.encode config ≡ some text → json.decode text ≡ some config)
      → save_config json writable server.rc config disk ≡ some disk'
      → choose_config formats.int random json server disk'
        ≡ returns (config, set_log_level_string config.log_level initial_level)
  unfolding choose_config
  choose_config-make_config json flags config writable server disk disk' h k reads saved =
      let consistent = subst (Ensures IsConsistent) h (make_config-IsConsistent flags) in
      let loaded = load_config-save_config json writable server.rc config disk disk' reads saved in
      rw (choose_config, k, loaded, check_config_of config consistent)
