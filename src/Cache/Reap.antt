-- ===== src/Cache/Reap.antt =====
-- `Cache.reap` of store/cache.go and its locks.
use panorama.Prelude.{
  ℕ, ◌+◌, ◌<◌, ◌≡◌, ◌⊎◌, inl, inr, ◌||◌, Bool, false, nat_beq, length, arith, Bool-cases,
}
use panorama.Cache.{Cache, RwMutex, locked, waits, fatal, reap, to_retire}

-- Whoever holds the lock, and whether or not a writer comes to wait, `reap` removes no item: it ends
-- the program, it blocks, or it returns with the cache as it was and the lock held by one reader more.
pub reap-never_removes {ℓ} :
    {V : Type ℓ} (comes : Bool) (mu : RwMutex) (c : Cache V) (now : ℕ)
    → (reap comes mu c now ≡ fatal)
      ⊎ (reap comes mu c now ≡ waits)
      ⊎ ((mu' : RwMutex) × (reap comes mu c now ≡ locked (mu', c)) × (mu.readers < mu'.readers))
unfolding reap
reap-never_removes comes mu c now = elim (Bool-cases (mu.writer || mu.waiting)) [
  | inl e ↦ inr (inl (ground (arith, e)))
  | inr e ↦ elim (Bool-cases comes) [
    | inr f ↦ inl (ground (arith, e, f))
    | inl f ↦ elim (Bool-cases (nat_beq (length (to_retire now 0 c.items)) 0)) [
      | inr g ↦ inr (inl (ground (arith, e, f, g)))
      | inl g ↦ inr (
          inr (
            record { writer = mu.writer; waiting = false; readers = mu.readers + 1 },
            ground (arith, e, f, g),
            omega arith,
          ))
    ]
  ]
]
