-- ===== src/Db/Restore.antt =====
-- `ReadRegistrations` of store/db.go: which row each handle keeps.
use panorama.Prelude.{
  ℕ, ◌≤◌, ◌≡◌, ◌⊎◌, inl, inr, nat_eq, nat_beq_iff, Option, none, some, List, [], ◌∷◌, ◌==◌, arith,
  Option-cases, ltb, Bool-cases,
}
use panorama.Prelude.Map
use panorama.Prelude.Map.{GoMap, get-put}
use panorama.Db.{Registration, read_row, read_rows}

abbrev Acc : Type 0
Acc = GoMap ℕ Registration × ℕ

-- The row's handle has a registration that is no older, and is at most the greatest handle.
abbrev pub Covers : Registration → GoMap ℕ Registration × ℕ → Type 0
Covers row (registrations, max_handle) =
    ((reg : Registration) × (Map.get row.handle registrations ≡ some reg) × (row.time ≤ reg.time))
    × (row.handle ≤ max_handle)

-- The row was read.
abbrev pub Read : Registration → List (Option Registration) → Type 0
Read row [] = ⊥
Read row (r ∷ rows) = (r ≡ some row) ⊎ Read row rows

module _ (row : Registration) where
  Covers-new : (acc : Acc) → Covers row (read_row (some row) acc)
  unfolding read_row
  Covers-new (m, h) = elim (Option-cases (Map.get row.handle m)) [
    | inl e ↦
        rw (e, read_row)
          (
            (
              row,
              ground
                  (arith, get-put row.handle row.handle row m, nat_beq_iff row.handle row.handle),
              omega arith,
            ),
            ground arith,
          )
    | inr (reg, e) ↦ elim (Bool-cases (ltb reg.time row.time)) [
      | inl f ↦
          rw (e, read_row, f)
            (
              (
                row,
                ground
                    (arith, get-put row.handle row.handle row m, nat_beq_iff row.handle row.handle),
                omega arith,
              ),
              ground arith,
            )
      | inr f ↦ rw (e, read_row, f) ((reg, e, ground (arith, f)), ground arith)
    ]
  ]

  Covers-put :
      (other : Registration) (m : GoMap ℕ Registration) (h k : ℕ)
      → Covers row (m, h)
      → h ≤ k
      → ((reg : Registration) → Map.get other.handle m ≡ some reg → reg.time ≤ other.time)
      → Covers row (Map.put other.handle other m, k)
  Covers-put other m h k ((reg, e, le), lt) hk older =
      elim (Bool-cases (other.handle == row.handle)) [
        | inl f ↦ (
          (
            other,
            ground (arith, f, get-put other.handle row.handle other m),
            ground (arith, f, e, le, nat_beq_iff other.handle row.handle, older reg),
          ),
          omega arith,
        )
        | inr f ↦
            ((reg, ground (arith, f, e, get-put other.handle row.handle other m), le), omega arith)
      ]

  Covers-read_row :
      (r : Option Registration) (acc : Acc) → Covers row acc → Covers row (read_row r acc)
  unfolding read_row
  Covers-read_row none acc c = c
  Covers-read_row (some other) (m, h) c = elim (Option-cases (Map.get other.handle m)) [
    | inl e ↦
        rw (e, read_row)
          (Covers-put other m h _ c (ground arith) (λ reg f. absurd (ground (arith, e, f))))
    | inr (reg, e) ↦ elim (Bool-cases (ltb reg.time other.time)) [
      | inl f ↦
          rw (e, read_row, f)
            (Covers-put other m h _ c (ground arith) (λ reg' g. ground (arith, e, f, g)))
      | inr f ↦ rw (e, read_row, f) (c.0, ground (arith, c.1))
    ]
  ]

  Covers-read_rows :
      (rows : List (Option Registration)) (acc : Acc)
      → Covers row acc
      → Covers row (read_rows rows acc)
  unfolding read_rows
  Covers-read_rows [] acc c = c
  Covers-read_rows (r ∷ rows) acc c =
      Covers-read_rows rows (read_row r acc) (Covers-read_row r acc c)

  -- After the loop of `ReadRegistrations` the handle of every row that was read stands for a
  -- registration that is no older than the row, and is at most the greatest handle.
  pub read_rows-Covers :
      (rows : List (Option Registration)) (acc : GoMap ℕ Registration × ℕ)
      → Read row rows
      → Covers row (read_rows rows acc)
  unfolding read_rows
  read_rows-Covers [] acc h = absurd h
  read_rows-Covers (r ∷ rows) acc (inl e) =
      rw e (Covers-read_rows rows (read_row (some row) acc) (Covers-new acc))
  read_rows-Covers (r ∷ rows) acc (inr h) = read_rows-Covers rows (read_row r acc) h
