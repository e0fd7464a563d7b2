-- ===== src/Cache/Expiry.antt =====
-- `Cache` of store/cache.go: what a read returns after a write.
use panorama.Prelude.{
  ℕ, ◌+◌, ◌≤◌, ◌≡◌, ◌==◌, GoString, string_eq, str_beq_iff, Option, none, some, leb, arith,
  if◌then◌else◌,
}
use panorama.Prelude.Map
use panorama.Prelude.Map.{get-put, get-delete}
use panorama.Cache.{CacheItem, Cache, is_expired, get, set}

-- The value of an entry that is there and has not expired.
abbrev pub live {ℓ} : {V : Type ℓ} → ℕ → Option (CacheItem V) → Option V
live now none = none
live now (some item) = if leb item.expires now then none else some item.value

module _ {ℓ} {V : Type ℓ} (c : Cache V) where
  get-live : (key : GoString) (now : ℕ) → (get c key now).0 ≡ live now (Map.get key c.items)
  unfolding get is_expired
  get-live key now = ground arith

  -- A read returns the value written last for the key until its time to live is over, and a write
  -- changes what is read for no other key.
  pub get-set :
      (key other : GoString) (value : V) (written now : ℕ)
      → (get (set c key value written).0 other now).0 ≡ (
          if key == other
          then (if leb (written + c.ttl) now then none else some value)
          else (get c other now).0)
  unfolding get set is_expired
  get-set key other value written now = ground (
    arith,
    get-put key other (record { expires = written + c.ttl; value = value }) c.items,
    str_beq_iff key other,
  )

  -- A read, which may delete an expired entry, changes no read at that time or later.
  pub get-get :
      (key other : GoString) (first later : ℕ)
      → first ≤ later
      → (get (get c key first).1 other later).0 ≡ (get c other later).0
  unfolding get is_expired
  get-get key other first later h =
      ground (arith, get-delete key other c.items, str_beq_iff key other)
