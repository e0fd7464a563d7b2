-- ===== src/ZooKeeper/Lookup.antt =====
-- The two maps of an ensemble that the parser of plugin/zookeeper.go reads.
use panorama.Prelude.{
  ◌==◌, ◌≡◌, ◌⊎◌, refl, GoString, string_eq, str_beq_iff, none, some, List, [], ◌∷◌, Bool, true,
  false, ◌&&◌, ◌||◌, arith, inr,
}
use panorama.Prelude.Map
use panorama.Prelude.Map.{GoMap, get-put}
use panorama.ZooKeeper.{ZkServer, ZooKeeperEventParser, eid_to_addr, addr_to_eid}
use panorama.ZooKeeper.Plugin.{in_ensemble}

pub has-eid_to_addr :
    (eid : GoString) (ensemble : List ZkServer) (m : GoMap GoString GoString)
    → Map.has eid (eid_to_addr ensemble m) ≡ (in_ensemble eid ensemble || Map.has eid m)
unfolding eid_to_addr in_ensemble
has-eid_to_addr eid [] m = refl
has-eid_to_addr eid (server ∷ ensemble) m = ground (
  arith,
  str_beq_iff eid server.eid,
  str_beq_iff server.eid eid,
  has-eid_to_addr eid ensemble (Map.put server.eid server.address m),
  get-put server.eid eid server.address m,
)

-- A server of the ensemble has this id and this address.
unfoldable pub is_listed : GoString → GoString → List ZkServer → Bool
is_listed eid address [] = false
is_listed eid address (server ∷ ensemble) =
    ((eid == server.eid) && (address == server.address)) || is_listed eid address ensemble

-- A server of the ensemble has this address.
unfoldable pub is_address : GoString → List ZkServer → Bool
is_address address [] = false
is_address address (server ∷ ensemble) = (address == server.address) || is_address address ensemble

pub get-addr_to_eid :
    (address eid : GoString) (ensemble : List ZkServer) (m : GoMap GoString GoString)
    → Map.get address (addr_to_eid ensemble m) ≡ some eid
    → (is_listed eid address ensemble ≡ true) ⊎ (Map.get address m ≡ some eid)
unfolding addr_to_eid is_listed
get-addr_to_eid address eid [] m h = inr h
get-addr_to_eid address eid (server ∷ ensemble) m h = ground (
  arith,
  str_beq_iff eid server.eid,
  str_beq_iff address server.address,
  str_beq_iff server.address address,
  get-addr_to_eid address eid ensemble (Map.put server.address server.eid m) h,
  get-put server.address address server.eid m,
)

pub none-addr_to_eid :
    (address : GoString) (ensemble : List ZkServer) (m : GoMap GoString GoString)
    → Map.get address (addr_to_eid ensemble m) ≡ none
    → (is_address address ensemble ≡ false) × (Map.get address m ≡ none)
unfolding addr_to_eid is_address
none-addr_to_eid address [] m h = (refl, h)
none-addr_to_eid address (server ∷ ensemble) m h =
    let ih = none-addr_to_eid address ensemble (Map.put server.address server.eid m) h in
    (
      ground (
        arith,
        str_beq_iff address server.address,
        str_beq_iff server.address address,
        get-put server.address address server.eid m,
        ih.0,
        ih.1,
      ),
      ground (arith, get-put server.address address server.eid m, ih.1),
    )

-- The maps of the parser are those of the ensemble.
abbrev pub IsFor : List ZkServer → ZooKeeperEventParser → Type 0
IsFor ensemble parser =
    (parser.eid_addr_map ≡ eid_to_addr ensemble [])
    × (parser.addr_eid_map ≡ addr_to_eid ensemble [])

module _ (ensemble : List ZkServer) (parser : ZooKeeperEventParser) where
  pub addr-is_listed :
      (address eid : GoString)
      → IsFor ensemble parser
      → Map.get address parser.addr_eid_map ≡ some eid
      → is_listed eid address ensemble ≡ true
  unfolding Map.get
  addr-is_listed address eid p h = ground (arith, get-addr_to_eid address eid ensemble [], p.1, h)

  pub addr-is_address :
      (address : GoString)
      → IsFor ensemble parser
      → Map.get address parser.addr_eid_map ≡ none
      → is_address address ensemble ≡ false
  addr-is_address address p h = ground (arith, none-addr_to_eid address ensemble [], p.1, h)

  pub eid-in_ensemble :
      (eid : GoString)
      → IsFor ensemble parser
      → Map.has eid parser.eid_addr_map ≡ true
      → in_ensemble eid ensemble ≡ true
  unfolding Map.get
  eid-in_ensemble eid p h = ground (arith, has-eid_to_addr eid ensemble [], p.0, h)
