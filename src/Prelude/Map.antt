-- ===== src/Prelude/Map.antt =====
-- Go's `map[K]V`: an association list. Its order is the order in which `range` visits the keys,
-- which Go leaves open: a statement about every list is a statement about every order.
use mathlib.Core.Path.{◌≡◌, refl, ◌∙◌, subst}
use mathlib.Core.Logic.{inl, inr}
use mathlib.Core.Bool.{Bool}
use mathlib.Core.List.{List, [], ◌∷◌}
use mathlib.Core.Option.{Option, none, some}
use native.Mathlib.Omega.{arith}
use panorama.Prelude.Tests.{if◌then◌else◌, is_some, Bool-cases}
use panorama.Prelude.Classes.{Eq, ◌==◌}

abbrev pub GoMap {ℓ κ} : Type ℓ → Type κ → Type (ℓ ⊔ κ)
GoMap K V = List (K × V)

module _ {ℓ κ} {K : Type ℓ} {V : Type κ} ⦃e : Eq K⦄ where
  -- v, ok := m[k]
  unfoldable pub get : K → GoMap K V → Option V
  get k [] = none
  get k ((j, v) ∷ m) = if j == k then some v else get k m

  -- m[k] = v
  unfoldable pub put : K → V → GoMap K V → GoMap K V
  put k v [] = (k, v) ∷ []
  put k v ((j, w) ∷ m) = if j == k then (j, v) ∷ m else (j, w) ∷ put k v m

  -- delete(m, k)
  unfoldable pub delete : K → GoMap K V → GoMap K V
  delete k [] = []
  delete k ((j, v) ∷ m) = let rest = delete k m in if j == k then rest else (j, v) ∷ rest

  -- _, ok := m[k]
  abbrev pub has : K → GoMap K V → Bool
  has k m = is_some (get k m)

  -- Every key stands once, as in every Go map.
  abbrev pub Distinct : GoMap K V → Type κ
  Distinct [] = Unit
  Distinct ((k, v) ∷ m) = (get k m ≡ none) × Distinct m

  pub get-put :
      (k j : K) (v : V) (m : GoMap K V) → get j (put k v m) ≡ (if k == j then some v else get j m)
  unfolding get put
  get-put k j v [] = refl
  get-put k j v ((i, w) ∷ m) =
      ground (arith, e.beq_iff k j, e.beq_iff i k, e.beq_iff i j, get-put k j v m)

  pub get-delete :
      (k j : K) (m : GoMap K V) → get j (delete k m) ≡ (if k == j then none else get j m)
  unfolding get delete
  get-delete k j [] = ground arith
  get-delete k j ((i, w) ∷ m) =
      ground (arith, e.beq_iff k j, e.beq_iff i k, e.beq_iff i j, get-delete k j m)

  pub put-Distinct : (k : K) (v : V) (m : GoMap K V) → Distinct m → Distinct (put k v m)
  unfolding get put
  put-Distinct k v [] d = ground arith
  put-Distinct k v ((i, w) ∷ m) d =
      ground (arith, e.beq_iff i k, e.beq_iff k i, get-put k i v m, put-Distinct k v m d.1)

  pub delete-Distinct : (k : K) (m : GoMap K V) → Distinct m → Distinct (delete k m)
  unfolding get delete
  delete-Distinct k [] d = d
  delete-Distinct k ((i, w) ∷ m) d =
      ground (arith, e.beq_iff i k, e.beq_iff k i, get-delete k i m, delete-Distinct k m d.1)

-- Every value replaced by a function of its key and itself; the keys and their order stay.
module _ {ℓ κ μ} {K : Type ℓ} {V : Type κ} {W : Type μ} ⦃e : Eq K⦄ (f : K → V → W) where
  unfoldable pub update_all : GoMap K V → GoMap K W
  update_all [] = []
  update_all ((k, v) ∷ m) = (k, f k v) ∷ update_all m

  pub get-update_all :
      (k : K) (m : GoMap K V)
      → get k (update_all m) ≡ elim (get k m) [ none ↦ none | some v ↦ some (f k v) ]
  unfolding get update_all
  get-update_all k [] = refl
  get-update_all k ((j, v) ∷ m) = ground (arith, e.beq_iff j k, get-update_all k m)

pub ruleset map_laws = (get-put, get-delete)

-- Every value of the map has a property.
module _ {ℓ κ μ} {K : Type ℓ} {V : Type κ} (P : V → Type μ) where
  abbrev pub AllValues : GoMap K V → Type μ
  AllValues [] = Unit
  AllValues ((k, v) ∷ m) = P v × AllValues m

  module _ ⦃e : Eq K⦄ where
    pub get-AllValues : (k : K) (v : V) (m : GoMap K V) → AllValues m → get k m ≡ some v → P v
    unfolding get
    get-AllValues k v [] a h = cc
    get-AllValues k v ((j, w) ∷ m) a h = elim (Bool-cases (j == k)) [
      | inl f ↦ let g : some w ≡ some v = rw f at h in let same : w ≡ v = cc in subst P same a.0
      | inr f ↦ get-AllValues k v m a.1 (rw f at h)
    ]

    pub put-AllValues : (k : K) (v : V) (m : GoMap K V) → P v → AllValues m → AllValues (put k v m)
    unfolding put
    put-AllValues k v [] p a = (p, tt)
    put-AllValues k v ((j, w) ∷ m) p a = elim (Bool-cases (j == k)) [
      | inl f ↦ rw (put, f) (p, a.1)
      | inr f ↦ rw (put, f) (a.0, put-AllValues k v m p a.1)
    ]

    pub delete-AllValues : (k : K) (m : GoMap K V) → AllValues m → AllValues (delete k m)
    unfolding delete
    delete-AllValues k [] a = a
    delete-AllValues k ((j, w) ∷ m) a = elim (Bool-cases (j == k)) [
      | inl f ↦ rw (delete, f) (delete-AllValues k m a.1)
      | inr f ↦ rw (delete, f) (a.0, delete-AllValues k m a.1)
    ]

module _ {ℓ κ μ} {K : Type ℓ} {V : Type κ} {W : Type μ} ⦃e : Eq K⦄ (f : K → V → W) where
  pub update_all-Distinct : (m : GoMap K V) → Distinct m → Distinct (update_all f m)
  unfolding update_all
  update_all-Distinct [] d = tt
  update_all-Distinct ((k, v) ∷ m) d = (get-update_all f k m ∙ rw d.0, update_all-Distinct m d.1)
