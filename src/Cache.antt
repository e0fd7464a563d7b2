-- ===== src/Cache.antt =====
-- store/cache.go. `time.Now()` is an argument of each call, in nanoseconds.
pub mod Expiry
pub mod Chain
pub mod Reap
use panorama.Prelude.{
  ℕ, suc, ◌+◌, ◌==◌, GoString, string_eq, Option, none, some, List, [], ◌∷◌, ◌++◌, Bool, true,
  false, not, ◌||◌, nat_beq, ltb, leb, length, drop, if◌then◌else◌,
}
use panorama.Prelude.Map
use panorama.Prelude.Map.{GoMap}
use panorama.Prelude.Int.{ℤ, sub_ℕ}

pub record CacheItem {ℓ} (V : Type ℓ) : Type ℓ where
  pub expires : ℕ
  pub value : V

pub record Cache {ℓ} (V : Type ℓ) : Type ℓ where
  pub ttl : ℕ
  pub items : GoMap GoString (CacheItem V)

pub record CacheList {ℓ} (V : Type ℓ) : Type ℓ where
  pub ttl : ℕ
  pub items : GoMap GoString (List (CacheItem V))
  pub max_list_len : ℕ

abbrev pub retire_list_len : ℕ
retire_list_len = 100

abbrev pub expire_write_len : ℕ
expire_write_len = 50

module _ {ℓ} {V : Type ℓ} where
  unfoldable pub new_cache_list : ℕ → ℕ → CacheList V
  new_cache_list ttl max_list_len = record { ttl = ttl; items = []; max_list_len = max_list_len }

  unfoldable pub new_cache : ℕ → Cache V
  new_cache ttl = record { ttl = ttl; items = [] }

  -- time.Now().Sub(i.expires) >= 0
  unfoldable pub is_expired : ℕ → CacheItem V → Bool
  is_expired now item = leb item.expires now

  -- time.Now().Sub(i.expires)
  unfoldable pub item_ttl : ℕ → CacheItem V → ℤ
  item_ttl now item = sub_ℕ now item.expires

  -- `Cache.Get`: an expired entry is deleted.
  unfoldable pub get : Cache V → GoString → ℕ → Option V × Cache V
  get c key now = elim (Map.get key c.items) [
    | none ↦ (none, c)
    | some item ↦
        if is_expired now item
        then (none, record c { items = Map.delete key c.items })
        else (some item.value, c)
  ]

  -- `Cache.Set`; the flag says whether a goroutine is started for `reap`.
  unfoldable pub set : Cache V → GoString → V → ℕ → Cache V × Bool
  set c key value now =
      let items = Map.put key (record { expires = now + c.ttl; value = value }) c.items in
      (record c { items = items }, leb expire_write_len (length items))

  unfoldable pub delete : Cache V → GoString → Cache V
  delete c key = record c { items = Map.delete key c.items }

  unfoldable pub clear : Cache V → Cache V
  clear c = record c { items = [] }

  -- The keys that the loop of `reap` puts into `retired`, from index `i` on.
  unfoldable pub to_retire : ℕ → ℕ → GoMap GoString (CacheItem V) → List GoString
  to_retire now i [] = []
  to_retire now i ((key, item) ∷ items) =
      let taken = key ∷ to_retire now (i + 1) items in
      let passed = to_retire now i items in
      if is_expired now item then (if leb retire_list_len i then [] else taken) else passed

  unfoldable pub delete_all :
      List GoString → GoMap GoString (CacheItem V) → GoMap GoString (CacheItem V)
  delete_all [] items = items
  delete_all (key ∷ keys) items = delete_all keys (Map.delete key items)

  -- The loop of `Process`: the number of expired items, or none where `newchain[j] = item` stores
  -- into the empty slice and panics. An item that has not expired is passed over.
  unfoldable pub process_chain : (CacheItem V → Bool) → ℕ → List (CacheItem V) → ℕ → Option ℕ
  process_chain fn now [] processed = some processed
  process_chain fn now (item ∷ chain) processed =
      let skip = process_chain fn now chain processed in
      let rest = process_chain fn now chain (processed + 1) in
      if not (is_expired now item) then skip else if not (fn item) then none else rest

  -- `CacheList.Process`: its result and the list afterwards, whose new chain is the empty slice.
  unfoldable pub process :
      CacheList V → GoString → (CacheItem V → Bool) → ℕ → Option (ℕ × CacheList V)
  process c key fn now = elim (Map.get key c.items) [
    | none ↦ some (0, c)
    | some chain ↦ elim (process_chain fn now chain 0) [
      | none ↦ none
      | some processed ↦ some (processed, record c { items = Map.put key [] c.items })
    ]
  ]

  -- The chain from the first item that has not expired.
  unfoldable pub drop_expired : ℕ → List (CacheItem V) → List (CacheItem V)
  drop_expired now [] = []
  drop_expired now (item ∷ chain) =
      let rest = drop_expired now chain in if not (is_expired now item) then item ∷ chain else rest

  unfoldable pub get_list : CacheList V → GoString → ℕ → List (CacheItem V) × CacheList V
  get_list c key now = elim (Map.get key c.items) [
    | none ↦ ([], c)
    | some chain ↦
        (drop_expired now chain, record c { items = Map.put key (drop_expired now chain) c.items })
  ]

  abbrev pub chain_or_new : Option (List (CacheItem V)) → List (CacheItem V)
  chain_or_new none = []
  chain_or_new (some chain) = chain

  unfoldable pub push_item : ℕ → List (CacheItem V) → CacheItem V → List (CacheItem V)
  push_item max_list_len chain item =
      let longer = chain ++ item ∷ [] in
      if ltb max_list_len (length longer) then drop 1 longer else longer

  unfoldable pub set_list : CacheList V → GoString → V → ℕ → CacheList V
  unfolding push_item
  set_list c key value now = record c {
    items =
        Map.put key
          (push_item c.max_list_len (chain_or_new (Map.get key c.items))
            (record { expires = now + c.ttl; value = value }))
          c.items;
  }

  unfoldable pub delete_list : CacheList V → GoString → CacheList V
  delete_list c key = record c { items = Map.delete key c.items }

  unfoldable pub empty_list : CacheList V → GoString → CacheList V
  empty_list c key = elim (Map.get key c.items) [
    | none ↦ c
    | some chain ↦ record c { items = Map.put key [] c.items }
  ]

-- `sync.RWMutex`: held by one writer or by readers, and perhaps a writer waits for the readers.
pub record RwMutex : Type 0 where
  pub writer : Bool
  pub waiting : Bool
  pub readers : ℕ

-- `waits`: the call blocks. `fatal`: the runtime ends the program, as for the `Unlock` of a mutex
-- that no writer holds or waits for. An `Unlock` while a writer waits lets readers in again, and
-- releases no reader.
pub data Locked {ℓ} (A : Type ℓ) : Type ℓ where
  locked : A → Locked A
  waits : Locked A
  fatal : Locked A

infixl 5 ◌>>=◌
abbrev pub ◌>>=◌ {ℓ κ} : {A : Type ℓ} {B : Type κ} → Locked A → (A → Locked B) → Locked B
locked a >>= f = f a
waits >>= f = waits
fatal >>= f = fatal

abbrev pub r_lock : RwMutex → Locked RwMutex
r_lock m = if m.writer || m.waiting then waits else locked (record m { readers = m.readers + 1 })

abbrev pub lock : RwMutex → Locked RwMutex
lock m =
    if m.writer || m.waiting || ltb 0 m.readers then waits else locked (record m { writer = true })

abbrev pub unlock : RwMutex → Locked RwMutex
unlock m =
    if m.writer
    then locked (record m { writer = false })
    else if m.waiting
    then locked (record m { waiting = false })
    else fatal

-- `Cache.reap`, with the lock calls that the code makes; `comes` tells whether a writer comes to wait
-- between the first two of them.
unfoldable pub reap {ℓ} : {V : Type ℓ} → Bool → RwMutex → Cache V → ℕ → Locked (RwMutex × Cache V)
unfolding to_retire delete_all
reap comes mu c now = do
  reading ← r_lock mu
  let keys = to_retire now 0 c.items
  free ← unlock (record reading { waiting = comes })
  if nat_beq (length keys) 0 then locked (free, c) else do
    writing ← lock free
    released ← unlock writing
    locked (released, record c { items = delete_all keys c.items })
