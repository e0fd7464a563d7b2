-- ===== src/ZooKeeper/Ensemble/Printed.antt =====
-- `ParseEnsembleFile` of plugin/zookeeper.go reads back an ensemble as zoo.cfg writes it.
use panorama.Prelude.{
  ℕ, ◌≡◌, GoString, Option, none, some, List, [], ◌∷◌, ◌++◌, Bool, true, false, ◌&&◌, not, nat_beq,
  ltb, All,
}
use panorama.ZooKeeper.{ZkServer, Standard}
use panorama.ZooKeeper.Ensemble.{LookupIp, is_space, conf_id_prefix}

-- A byte of ASCII that is neither white space nor one that the format uses, except for the colon.
abbrev pub is_plain : ℕ → Bool
is_plain c = ltb c 128 && not (is_space c) && not (nat_beq c b'#') && not (nat_beq c b'=')

abbrev pub IsPlain : GoString → Type 0
IsPlain s = All (λ c. is_plain c ≡ true) s

-- A string that does not have the separator.
abbrev Lacks : ℕ → GoString → Type 0
Lacks sep s = All (λ c. nat_beq c sep ≡ false) s

-- The value of a server: its address and its ports, or the address alone.
abbrev value_of : GoString → Option GoString → GoString
value_of address none = address
value_of address (some ports) = address ++ b':' ∷ ports

-- A line of the file.
abbrev pub Entry : Type 0
Entry = ZkServer × Option GoString

unfoldable pub print_entry : Entry → GoString
print_entry (server, ports) = conf_id_prefix ++ server.eid ++ b'=' ∷ value_of server.address ports

abbrev pub servers_of : List Entry → List ZkServer
servers_of [] = []
servers_of ((server, ports) ∷ entries) = server ∷ servers_of entries

abbrev pub print_all : List Entry → List GoString
print_all [] = []
print_all (entry ∷ entries) = print_entry entry ∷ print_all entries

module _ (std : Standard) (lookup_ip : LookupIp) where
  -- An entry whose parts are plain, and whose address is an address without a colon.
  pub record IsEntry (entry : Entry) : Type 0 where
    pub eid : IsPlain entry.0.eid
    pub address : IsPlain entry.0.address
    pub numeric : Lacks b':' entry.0.address
    pub is_ip : std.is_ip entry.0.address ≡ true
    pub ports : IsPlain (value_of entry.0.address entry.1)
