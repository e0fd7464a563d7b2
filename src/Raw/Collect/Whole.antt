-- ===== src/Raw/Collect/Whole.antt =====
-- `GC` of store/raw.go on the whole table, whose views are within their bound.
use panorama.Prelude.{
  select, ◌∙◌, ℕ, ◌+◌, ◌-◌, ◌≡◌, refl, ◌%◌, GoString, string_eq, str_beq_iff, Option, none, some,
  [], ◌∷◌, Bool, true, false, ltb, length, arith, sym, Option-cases, inl, inr, if◌then◌else◌,
}
use panorama.Prelude.Map
use panorama.Prelude.Map.{GoMap, AllValues, Distinct, update_all-Distinct, get-update_all}
use panorama.Prelude.Int.{ℤ}
use panorama.Timestamp.{Timestamp}
use panorama.Health.{View, Panorama}
use panorama.Raw.{RawHealthStorage, get_view}
use panorama.Raw.Frame.{observations_of}
use panorama.Raw.Bounded.{IsBounded, IsBoundedView, IsBoundedPanorama}
use panorama.Raw.Collect.{collect_views, collect_tenants, gc}
use panorama.Raw.Collect.Kept.{kept, length-kept-le, collect_view-kept}

module _ (expire : Option Timestamp) (ttl_nanos : ℤ) where
  -- A view with the observations that are to be kept, and how many are not.
  abbrev pub kept_view : View → View
  kept_view view = record view { observations = kept expire ttl_nanos view.observations }

  abbrev pub dropped_of : View → ℕ
  dropped_of view = length view.observations - length (kept expire ttl_nanos view.observations)

  abbrev pub kept_panorama : Panorama → Panorama
  kept_panorama pano = record pano {
    views = Map.update_all (λ observer view. kept_view view) pano.views;
  }

  abbrev pub dropped : GoMap GoString View → ℕ
  dropped [] = 0
  dropped ((observer, view) ∷ views) = dropped_of view + dropped views

  abbrev pub kept_tenants : GoMap GoString Panorama → GoMap GoString Panorama
  kept_tenants = Map.update_all (λ subject pano. kept_panorama pano)

  -- The count of a subject in `retired`.
  abbrev pub retired_of : Option Panorama → Option ℕ
  retired_of none = none
  retired_of (some pano) =
      if ltb 0 (dropped pano.views) then some (dropped pano.views % 4294967296) else none

  kept_view-IsBounded : (view : View) → IsBoundedView view → IsBoundedView (kept_view view)
  kept_view-IsBounded view h = omega (arith, length-kept-le expire ttl_nanos view.observations)

  kept_views-IsBounded :
      (views : GoMap GoString View)
      → AllValues IsBoundedView views
      → AllValues IsBoundedView (Map.update_all (λ observer view. kept_view view) views)
  unfolding Map.update_all
  kept_views-IsBounded [] h = tt
  kept_views-IsBounded ((observer, view) ∷ views) h =
      (kept_view-IsBounded view h.0, kept_views-IsBounded views h.1)

  kept_tenants-IsBounded :
      (tenants : GoMap GoString Panorama)
      → AllValues IsBoundedPanorama tenants
      → AllValues IsBoundedPanorama (kept_tenants tenants)
  unfolding Map.update_all
  kept_tenants-IsBounded [] h = tt
  kept_tenants-IsBounded ((subject, pano) ∷ tenants) h =
      (kept_views-IsBounded pano.views h.0, kept_tenants-IsBounded tenants h.1)

  collect_views-kept :
      (views : GoMap GoString View)
      → AllValues IsBoundedView views
      → collect_views expire ttl_nanos views
        ≡ some (Map.update_all (λ observer view. kept_view view) views, dropped views)
  unfolding collect_views Map.update_all
  collect_views-kept [] h = refl
  collect_views-kept ((observer, view) ∷ views) h = rw (
    collect_views,
    collect_view-kept expire ttl_nanos view.observations (omega (arith, h.0)),
    collect_views-kept views h.1,
  )

  -- The retired counts, in the order of the tenants.
  abbrev pub counts : GoMap GoString Panorama → GoMap GoString ℕ
  counts [] = []
  counts ((subject, pano) ∷ tenants) =
      if ltb 0 (dropped pano.views)
      then (subject, dropped pano.views % 4294967296) ∷ counts tenants
      else counts tenants

  collect_tenants-kept :
      (tenants : GoMap GoString Panorama)
      → AllValues IsBoundedPanorama tenants
      → collect_tenants expire ttl_nanos tenants ≡ some (kept_tenants tenants, counts tenants)
  unfolding collect_tenants Map.update_all
  collect_tenants-kept [] h = refl
  collect_tenants-kept ((subject, pano) ∷ tenants) h =
      rw (collect_tenants, collect_views-kept pano.views h.0, collect_tenants-kept tenants h.1)

  get-counts_absent :
      (subject : GoString) (tenants : GoMap GoString Panorama)
      → Map.get subject tenants ≡ none
      → Map.get subject (counts tenants) ≡ none
  unfolding Map.get
  get-counts_absent subject [] h = refl
  get-counts_absent subject ((name, pano) ∷ tenants) h =
      ground (arith, get-counts_absent subject tenants)

  get-counts :
      (subject : GoString) (tenants : GoMap GoString Panorama)
      → Distinct tenants
      → Map.get subject (counts tenants) ≡ retired_of (Map.get subject tenants)
  unfolding Map.get
  get-counts subject [] d = refl
  get-counts subject ((name, pano) ∷ tenants) d = ground (
    arith,
    str_beq_iff name subject,
    get-counts subject tenants,
    get-counts_absent subject tenants,
  )

kept-nil : (expire : Option Timestamp) (ttl_nanos : ℤ) → kept expire ttl_nanos [] ≡ []
unfolding select
kept-nil none ttl_nanos = refl
kept-nil (some expire) ttl_nanos = refl

-- What is left of a view.
pub observations-kept_tenants :
    (expire : Option Timestamp) (ttl_nanos : ℤ) (s : RawHealthStorage) (o x : GoString)
    → observations_of
        (get_view (record s { tenants = kept_tenants expire ttl_nanos s.tenants }) o x)
      ≡ kept expire ttl_nanos (observations_of (get_view s o x))
unfolding get_view
observations-kept_tenants expire ttl_nanos s o x =
    let at_subject =
      get-update_all (λ subject pano. kept_panorama expire ttl_nanos pano) x s.tenants in
    elim (Option-cases (Map.get x s.tenants)) [
      | inl e ↦
          let gone : Map.get x (kept_tenants expire ttl_nanos s.tenants) ≡ none =
            at_subject ∙ rw e in
          rw (get_view, e, gone) (sym (kept-nil expire ttl_nanos))
      | inr (pano, e) ↦
          let found : Map.get x (kept_tenants expire ttl_nanos s.tenants)
              ≡ some (kept_panorama expire ttl_nanos pano) =
            at_subject ∙ rw e in
          let at_observer =
            get-update_all (λ observer view. kept_view expire ttl_nanos view) o pano.views in
          rw (get_view, e, found, at_observer)
            (elim (Option-cases (Map.get o pano.views)) [
              | inl f ↦ rw f (sym (kept-nil expire ttl_nanos))
              | inr (view, f) ↦ rw f
            ])
    ]

-- The expiry that rules a collection: none where its conversion fails, which collects nothing.
abbrev pub governs : Bool → Option Timestamp → Option (Option Timestamp)
governs true expire = some none
governs false none = none
governs false (some expire) = some (some expire)

-- The outcome of a collection: what is left of every view, and the count of every subject.
abbrev pub Collected :
    RawHealthStorage
    → ℤ
    → Option (Option Timestamp)
    → Option (RawHealthStorage × Option (GoMap GoString ℕ))
    → Type 0
Collected s ttl_nanos none result = result ≡ some (s, none)
Collected s ttl_nanos (some expire) result =
    (retired : GoMap GoString ℕ) × (result
      ≡ some (record s { tenants = kept_tenants expire ttl_nanos s.tenants }, some retired))
    × ((subject : GoString)
        → Map.get subject retired ≡ retired_of expire ttl_nanos (Map.get subject s.tenants))

-- `GC` of a table with one panorama per subject, whose views are within their bound and whose
-- observations have timestamps, never panics. Of every view exactly the observations that are to be kept stay, and `retired` has the number of the others for each
-- subject that has any. Where the expiry cannot be converted nothing changes.
pub gc-Collected :
    (s : RawHealthStorage) (ttl_nanos : ℤ) (relative : Bool) (expire : Option Timestamp)
    → IsBounded s
    → Collected s ttl_nanos (governs relative expire) (gc s ttl_nanos relative expire)
unfolding gc
gc-Collected s ttl_nanos true expire h = (
  counts none ttl_nanos s.tenants,
  rw (gc, collect_tenants-kept none ttl_nanos s.tenants h.0),
  λ subject. get-counts none ttl_nanos subject s.tenants h.1,
)
gc-Collected s ttl_nanos false none h = refl
gc-Collected s ttl_nanos false (some expire) h = (
  counts (some expire) ttl_nanos s.tenants,
  rw (gc, collect_tenants-kept (some expire) ttl_nanos s.tenants h.0),
  λ subject. get-counts (some expire) ttl_nanos subject s.tenants h.1,
)

-- A collection ends with a table whose views are within their bound.
abbrev pub EndsBounded : Option (RawHealthStorage × Option (GoMap GoString ℕ)) → Type 0
EndsBounded none = ⊥
EndsBounded (some (s, retired)) = IsBounded s

pub gc-EndsBounded :
    (s : RawHealthStorage) (ttl_nanos : ℤ) (relative : Bool) (expire : Option Timestamp)
    → IsBounded s
    → EndsBounded (gc s ttl_nanos relative expire)
unfolding gc
gc-EndsBounded s ttl_nanos true expire h =
    rw (gc, collect_tenants-kept none ttl_nanos s.tenants h.0)
      (kept_tenants-IsBounded none ttl_nanos s.tenants h.0, update_all-Distinct _ s.tenants h.1)
gc-EndsBounded s ttl_nanos false none h = h
gc-EndsBounded s ttl_nanos false (some expire) h =
    rw (gc, collect_tenants-kept (some expire) ttl_nanos s.tenants h.0)
      (
        kept_tenants-IsBounded (some expire) ttl_nanos s.tenants h.0,
        update_all-Distinct _ s.tenants h.1,
      )
