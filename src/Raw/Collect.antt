-- ===== src/Raw/Collect.antt =====
-- `GC` of store/raw.go. The expiry timestamp, from `ptypes.TimestampProto` of now minus the time to
-- live, is an argument: none where the conversion fails. The lock that the loop drops between two
-- panoramas is not modelled: the whole collection runs at once.
pub mod Kept
pub mod Whole
use panorama.Prelude.{
  ℕ, zero, suc, ◌+◌, ◌-◌, ◌%◌, ◌==◌, GoString, string_eq, Option, none, some, List, [], ◌∷◌, ◌++◌,
  Bool, true, false, ltb, leb, nat_beq, length, get_elem?, if◌then◌else◌,
}
use panorama.Prelude.Map
use panorama.Prelude.Map.{GoMap}
use panorama.Prelude.Int.{ℤ, pos, ltb_ℤ}
use panorama.Timestamp.{Timestamp, compare_timestamp, subtract_timestamp}
use panorama.Health.{Observation, View, Panorama, last_ts}
use panorama.Raw.{max_report_per_view, RawHealthStorage}

-- The test of the relative loop, and the one of the absolute loop.
unfoldable pub is_recent : Timestamp → ℤ → Observation → Bool
is_recent max_ts ttl_nanos val = ltb_ℤ (subtract_timestamp max_ts val.ts) ttl_nanos

unfoldable pub is_after : Timestamp → Observation → Bool
is_after expire val = ltb_ℤ (pos 0) (compare_timestamp val.ts expire)

-- The indices, from `i` on, of the observations that pass the test.
unfoldable pub indices : (Observation → Bool) → ℕ → List Observation → List ℕ
indices keep i [] = []
indices keep i (val ∷ obs) =
    let rest = indices keep (i + 1) obs in if keep val then i ∷ rest else rest

-- `for i := 0; i < lo-1; i++`: the last observation is not tested, and then added.
unfoldable pub relative_indices : (Observation → Bool) → ℕ → List Observation → List ℕ
relative_indices keep i [] = []
relative_indices keep i (val ∷ []) = i ∷ []
relative_indices keep i (val ∷ next ∷ obs) =
    let rest = relative_indices keep (i + 1) (next ∷ obs) in if keep val then i ∷ rest else rest

-- obs[i] = view.Observations[remains[i]]
unfoldable pub gather : List Observation → List ℕ → List Observation
gather obs [] = []
gather obs (i ∷ remains) = elim (get_elem? obs i) [
  | none ↦ gather obs remains
  | some val ↦ val ∷ gather obs remains
]

-- `remains` has MaxReportPerView + 1 places: none where the loop stores beyond them and panics.
unfoldable pub fits : List ℕ → Option (List ℕ)
fits remains = if leb (length remains) (max_report_per_view + 1) then some remains else none

-- The observations that stay.
unfoldable pub sweep : List Observation → List ℕ → List Observation
sweep obs remains = if ltb (length remains) (length obs) then gather obs remains else obs

unfoldable pub remains_of : Option Timestamp → ℤ → List Observation → List ℕ
unfolding is_recent is_after indices relative_indices
remains_of none ttl_nanos [] = []
remains_of none ttl_nanos (val ∷ obs) =
    relative_indices (is_recent (last_ts val.ts obs) ttl_nanos) 0 (val ∷ obs)
remains_of (some expire) ttl_nanos obs = indices (is_after expire) 0 obs

-- One view: its observations afterwards and how many were retired. `expire` is none for `relative`.
unfoldable pub collect_view :
    Option Timestamp → ℤ → List Observation → Option (List Observation × ℕ)
unfolding remains_of fits sweep
collect_view expire ttl_nanos obs = elim (fits (remains_of expire ttl_nanos obs)) [
  | none ↦ none
  | some remains ↦ some (sweep obs remains, length obs - length remains)
]

unfoldable pub collect_views :
    Option Timestamp → ℤ → GoMap GoString View → Option (GoMap GoString View × ℕ)
unfolding collect_view
collect_views expire ttl_nanos [] = some ([], 0)
collect_views expire ttl_nanos ((observer, view) ∷ views) =
    elim (collect_view expire ttl_nanos view.observations) [
      | none ↦ none
      | some (obs, retired) ↦ elim (collect_views expire ttl_nanos views) [
        | none ↦ none
        | some (rest, r1) ↦
            some ((observer, record view { observations = obs }) ∷ rest, retired + r1)
      ]
    ]

unfoldable pub collect_tenants :
    Option Timestamp
    → ℤ
    → GoMap GoString Panorama
    → Option (GoMap GoString Panorama × GoMap GoString ℕ)
unfolding collect_views
collect_tenants expire ttl_nanos [] = some ([], [])
collect_tenants expire ttl_nanos ((subject, pano) ∷ tenants) =
    elim (collect_views expire ttl_nanos pano.views) [
      | none ↦ none
      | some (views, r1) ↦ elim (collect_tenants expire ttl_nanos tenants) [
        | none ↦ none
        | some (rest, retired) ↦ some (
          (subject, record pano { views = views }) ∷ rest,
          if ltb 0 r1 then (subject, r1 % 4294967296) ∷ retired else retired,
        )
      ]
    ]

-- The store and the retired counts, which are nil if the conversion fails; none for a panic.
unfoldable pub gc :
    RawHealthStorage
    → ℤ
    → Bool
    → Option Timestamp
    → Option (RawHealthStorage × Option (GoMap GoString ℕ))
unfolding collect_tenants
gc s ttl_nanos true expire = elim (collect_tenants none ttl_nanos s.tenants) [
  | none ↦ none
  | some (tenants, retired) ↦ some (record s { tenants = tenants }, some retired)
]
gc s ttl_nanos false none = some (s, none)
gc s ttl_nanos false (some expire) = elim (collect_tenants (some expire) ttl_nanos s.tenants) [
  | none ↦ none
  | some (tenants, retired) ↦ some (record s { tenants = tenants }, some retired)
]
