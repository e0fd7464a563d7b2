-- ===== src/Db.antt =====
-- store/db.go: the registrations read back from the database. SQLite is outside of the program: a
-- query's rows are an argument, and none is a row that `Scan` refuses.
pub mod Restore
pub mod Inserts
use panorama.Prelude.{
  ℕ, GoString, nat_eq, Option, none, some, List, [], ◌∷◌, Bool, true, false, ltb, if◌then◌else◌,
}
use panorama.Prelude.Map
use panorama.Prelude.Map.{GoMap}

pub record ObserverModule : Type 0 where
  pub module_name : GoString
  pub observer : GoString

-- `handle` is a uint64.
pub record Registration : Type 0 where
  pub observer_module : ObserverModule
  pub open observer_module use *
  pub handle : ℕ
  pub time : ℕ

-- One turn of the loop over the rows.
unfoldable pub read_row : Option Registration → GoMap ℕ Registration × ℕ → GoMap ℕ Registration × ℕ
read_row none (registrations, max_handle) = (registrations, max_handle)
read_row (some row) (registrations, max_handle) = (
  elim (Map.get row.handle registrations) [
    | none ↦ Map.put row.handle row registrations
    | some reg ↦
        if ltb reg.time row.time then Map.put row.handle row registrations else registrations
  ],
  if ltb max_handle row.handle then row.handle else max_handle,
)

unfoldable pub read_rows :
    List (Option Registration) → GoMap ℕ Registration × ℕ → GoMap ℕ Registration × ℕ
unfolding read_row
read_rows [] acc = acc
read_rows (row ∷ rows) acc = read_rows rows (read_row row acc)

-- `ReadRegistrations`: a nil map and 0 if the database is not open or the query fails.
unfoldable pub read_registrations :
    Bool → Option (List (Option Registration)) → Option (GoMap ℕ Registration) × ℕ
unfolding read_rows
read_registrations false query = (none, 0)
read_registrations true none = (none, 0)
read_registrations true (some rows) =
    let (registrations, max_handle) = read_rows rows ([], 0) in (some registrations, max_handle)
