-- ===== src/Cache/Chain.antt =====
-- `CacheList` of store/cache.go: each chain holds the latest items, oldest first.
use panorama.Prelude.{
  ℕ, ◌+◌, ◌≤◌, ◌≡◌, refl, ◌&&◌, ◌==◌, GoString, string_eq, none, some, List, [], ◌∷◌, ◌++◌, Bool,
  true, not, leb, length, All, select, arith, if◌then◌else◌, Option-cases, Bool-cases, inl, inr,
}
use panorama.Prelude.Map
use panorama.Prelude.Map.{get-put, get-delete}
use panorama.Prelude.Window.{last, push-last}
use panorama.Cache.{
  CacheItem, CacheList, is_expired, process_chain, process, drop_expired, chain_or_new, push_item,
  set_list,
}

-- The items expire in the order in which they stand.
abbrev pub Chronological {ℓ} : {V : Type ℓ} → List (CacheItem V) → Type 0
Chronological [] = Unit
Chronological (item ∷ chain) =
    All (λ later. item.expires ≤ later.expires) chain × Chronological chain

abbrev pub all_pass {ℓ} : {A : Type ℓ} → (A → Bool) → List A → Bool
all_pass p [] = true
all_pass p (x ∷ xs) = p x && all_pass p xs

module _ {ℓ} {V : Type ℓ} where
  abbrev pub unexpired : ℕ → List (CacheItem V) → List (CacheItem V)
  unexpired now = select (λ item. not (is_expired now item))

  unexpired-All :
      (now : ℕ) (chain : List (CacheItem V)) (bound : ℕ)
      → not (leb bound now) ≡ true
      → All (λ later. bound ≤ later.expires) chain
      → unexpired now chain ≡ chain
  unfolding select is_expired
  unexpired-All now [] bound h a = refl
  unexpired-All now (item ∷ chain) bound h a = ground (arith, unexpired-All now chain bound h a.1)

  -- `CacheList.Get` stops at the first item that has not expired. In a chronological chain that
  -- leaves exactly the items that have not expired.
  pub drop_expired-unexpired :
      (now : ℕ) (chain : List (CacheItem V))
      → Chronological chain
      → drop_expired now chain ≡ unexpired now chain
  unfolding drop_expired select is_expired
  drop_expired-unexpired now [] h = refl
  drop_expired-unexpired now (item ∷ chain) h =
      ground (arith, drop_expired-unexpired now chain h.1, unexpired-All now chain item.expires)

  abbrev pub chain_of : CacheList V → GoString → List (CacheItem V)
  chain_of c key = chain_or_new (Map.get key c.items)

  -- `CacheList.Set` appends to the chain of its key, which keeps the last `max_list_len` items, and
  -- leaves the other chains alone.
  pub chain_of-set_list :
      (c : CacheList V) (key other : GoString) (value : V) (now : ℕ) (written : List (CacheItem V))
      → chain_of c key ≡ last c.max_list_len written
      → chain_of (set_list c key value now) other ≡ (
          if key == other
          then last c.max_list_len (written ++ record { expires = now + c.ttl; value = value } ∷ [])
          else chain_of c other)
  unfolding set_list
  chain_of-set_list c key other value now written h =
      let item : CacheItem V = record { expires = now + c.ttl; value = value } in
      rw (get-put key other (push_item c.max_list_len (chain_of c key) item) c.items)
        (elim (Bool-cases (key == other)) [
          | inl e ↦ rw (e, h) (push-last c.max_list_len written item)
          | inr e ↦ rw e
        ])

  -- `Process` panics if the function keeps an expired item; otherwise it leaves the empty chain,
  -- also of the items that have not expired.
  process_chain_lem :
      (fn : CacheItem V → Bool) (now : ℕ) (chain : List (CacheItem V)) (n : ℕ)
      → process_chain fn now chain n ≡ (
          if all_pass fn (select (is_expired now) chain)
          then some (n + length (select (is_expired now) chain))
          else none)
  unfolding process_chain select
  process_chain_lem fn now [] n = ground arith
  process_chain_lem fn now (item ∷ chain) n =
      ground (arith, process_chain_lem fn now chain n, process_chain_lem fn now chain (n + 1))

  -- `Process` panics exactly if its key is there and the function keeps one of the expired items.
  -- If it does not panic it answers how many had expired and leaves the chain of its key empty:
  -- the items that had not expired are lost with the others.
  pub process_lem :
      (c : CacheList V) (key : GoString) (fn : CacheItem V → Bool) (now : ℕ)
      → process c key fn now ≡ (
          if all_pass fn (select (is_expired now) (chain_of c key))
          then some (
            length (select (is_expired now) (chain_of c key)),
            if Map.has key c.items then record c { items = Map.put key [] c.items } else c,
          )
          else none)
  unfolding process select
  process_lem c key fn now = elim (Option-cases (Map.get key c.items)) [
    | inl e ↦ rw (e, process)
    | inr (chain, e) ↦ rw (e, process) (ground (arith, process_chain_lem fn now chain 0))
  ]
