-- ===== src/Raw/Collect/Kept.antt =====
-- What `GC` of store/raw.go keeps of a view.
use mathlib.Core.List.{append_assoc}
use panorama.Prelude.{
  ℕ, ◌+◌, ◌-◌, ◌≤◌, ◌≡◌, refl, Option, none, some, List, [], ◌∷◌, ◌++◌, Bool, true, leb, length,
  length-append, length-select-le, get_elem?, select, arith, if◌then◌else◌,
}
use panorama.Prelude.Int.{ℤ}
use panorama.Timestamp.{Timestamp}
use panorama.Health.{Observation, last_ts}
use panorama.Raw.{max_report_per_view}
use panorama.Raw.Collect.{
  is_recent, is_after, indices, relative_indices, gather, fits, remains_of, collect_view,
}

-- The observations that pass a test, and the last one in any case.
unfoldable pub select_or_last : (Observation → Bool) → List Observation → List Observation
select_or_last keep [] = []
select_or_last keep (val ∷ []) = val ∷ []
select_or_last keep (val ∷ next ∷ obs) =
    let rest = select_or_last keep (next ∷ obs) in if keep val then val ∷ rest else rest

-- What is to be kept: without an expiry the observations less than the time to live older than the
-- last one, and else those after the expiry.
abbrev pub kept : Option Timestamp → ℤ → List Observation → List Observation
kept (some expire) ttl_nanos obs = select (is_after expire) obs
kept none ttl_nanos [] = []
kept none ttl_nanos (val ∷ obs) =
    select_or_last (is_recent (last_ts val.ts obs) ttl_nanos) (val ∷ obs)

get_elem?-append :
    (pre : List Observation) (val : Observation) (obs : List Observation)
    → get_elem? (pre ++ val ∷ obs) (length pre) ≡ some val
get_elem?-append [] val obs = refl
get_elem?-append (x ∷ pre) val obs = get_elem?-append pre val obs

module _ (keep : Observation → Bool) where
  abbrev Gathers : List Observation → List Observation → List ℕ → List Observation → Type 0
  Gathers pre obs is result = gather (pre ++ obs) is ≡ result

  shift :
      (pre : List Observation) (val : Observation) (obs : List Observation) (is : ℕ → List ℕ)
      (result : List Observation)
      → Gathers (pre ++ val ∷ []) obs (is (length (pre ++ val ∷ []))) result
      → Gathers pre (val ∷ obs) (is (length pre + 1)) result
  shift pre val obs is result h =
      rw (← append_assoc pre (val ∷ []) obs, ← length-append pre (val ∷ [])) h

  gather-indices :
      (pre obs : List Observation)
      → Gathers pre obs (indices keep (length pre) obs) (select keep obs)
  unfolding gather indices select
  gather-indices pre [] = refl
  gather-indices pre (val ∷ obs) = ground (
    arith,
    get_elem?-append pre val obs,
    shift pre val obs (λ i. indices keep i obs) (select keep obs)
        (gather-indices (pre ++ val ∷ []) obs),
  )

  gather-relative_indices :
      (pre obs : List Observation)
      → Gathers pre obs (relative_indices keep (length pre) obs) (select_or_last keep obs)
  unfolding gather relative_indices select_or_last
  gather-relative_indices pre [] = refl
  gather-relative_indices pre (val ∷ []) = ground (arith, get_elem?-append pre val [])
  gather-relative_indices pre (val ∷ next ∷ obs) = ground (
    arith,
    get_elem?-append pre val (next ∷ obs),
    shift pre val (next ∷ obs) (λ i. relative_indices keep i (next ∷ obs))
        (select_or_last keep (next ∷ obs)) (gather-relative_indices (pre ++ val ∷ []) (next ∷ obs)),
  )

  length-indices :
      (i : ℕ) (obs : List Observation) → length (indices keep i obs) ≡ length (select keep obs)
  unfolding indices select
  length-indices i [] = refl
  length-indices i (val ∷ obs) = ground (arith, length-indices (i + 1) obs)

  length-relative_indices :
      (i : ℕ) (obs : List Observation)
      → length (relative_indices keep i obs) ≡ length (select_or_last keep obs)
  unfolding relative_indices select_or_last
  length-relative_indices i [] = refl
  length-relative_indices i (val ∷ []) = refl
  length-relative_indices i (val ∷ next ∷ obs) =
      ground (arith, length-relative_indices (i + 1) (next ∷ obs))

  select_all :
      (obs : List Observation) → length obs ≤ length (select keep obs) → select keep obs ≡ obs
  unfolding select
  select_all [] h = refl
  select_all (val ∷ obs) h = ground (arith, select_all obs, length-select-le keep obs)

  length-select_or_last-le :
      (obs : List Observation) → length (select_or_last keep obs) ≤ length obs
  unfolding select_or_last
  length-select_or_last-le [] = omega arith
  length-select_or_last-le (val ∷ []) = omega arith
  length-select_or_last-le (val ∷ next ∷ obs) =
      ground (arith, length-select_or_last-le (next ∷ obs))

  select_or_last_all :
      (obs : List Observation)
      → length obs ≤ length (select_or_last keep obs)
      → select_or_last keep obs ≡ obs
  unfolding select_or_last
  select_or_last_all [] h = refl
  select_or_last_all (val ∷ []) h = refl
  select_or_last_all (val ∷ next ∷ obs) h =
      ground (arith, select_or_last_all (next ∷ obs), length-select_or_last-le (next ∷ obs))

abbrev Remaining : Option Timestamp → ℤ → List Observation → Type 0
Remaining expire ttl_nanos obs =
    (gather obs (remains_of expire ttl_nanos obs) ≡ kept expire ttl_nanos obs)
    × (length (remains_of expire ttl_nanos obs) ≡ length (kept expire ttl_nanos obs))
    × (length (kept expire ttl_nanos obs) ≤ length obs)
    × (length obs ≤ length (kept expire ttl_nanos obs) → kept expire ttl_nanos obs ≡ obs)

remaining :
    (expire : Option Timestamp) (ttl_nanos : ℤ) (obs : List Observation)
    → Remaining expire ttl_nanos obs
unfolding remains_of
remaining (some expire) ttl_nanos obs = (
  gather-indices (is_after expire) [] obs,
  length-indices (is_after expire) 0 obs,
  length-select-le (is_after expire) obs,
  select_all (is_after expire) obs,
)
remaining none ttl_nanos [] = (unfold gather in refl, refl, omega arith, λ h. refl)
remaining none ttl_nanos (val ∷ obs) =
    let keep = is_recent (last_ts val.ts obs) ttl_nanos in
    (
      gather-relative_indices keep [] (val ∷ obs),
      length-relative_indices keep 0 (val ∷ obs),
      length-select_or_last-le keep (val ∷ obs),
      select_or_last_all keep (val ∷ obs),
    )

pub length-kept-le :
    (expire : Option Timestamp) (ttl_nanos : ℤ) (obs : List Observation)
    → length (kept expire ttl_nanos obs) ≤ length obs
length-kept-le expire ttl_nanos obs = (remaining expire ttl_nanos obs).2

-- A view within its bound is collected without a panic. Exactly the observations that are to be
-- kept stay, in their order, and the count is the number of the others.
pub collect_view-kept :
    (expire : Option Timestamp) (ttl_nanos : ℤ) (obs : List Observation)
    → length obs ≤ max_report_per_view + 1
    → collect_view expire ttl_nanos obs
      ≡ some (kept expire ttl_nanos obs, length obs - length (kept expire ttl_nanos obs))
unfolding collect_view
collect_view-kept expire ttl_nanos obs h =
    let (gathered, size, small, all) = remaining expire ttl_nanos obs in
    let room : leb (length (remains_of expire ttl_nanos obs)) 11 ≡ true =
      ground (arith, size, small) in
    rw (collect_view, fits, room) (ground (arith, gathered, size, small, all))
