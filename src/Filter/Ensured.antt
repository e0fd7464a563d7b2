-- ===== src/Filter/Ensured.antt =====
-- Predicates on a `Result`, which hold of its value.
use panorama.Prelude.{◌≡◌, ◌⊎◌, inl, inr, refl}
use panorama.Filter.{Result, returns, errors, panics, ◌>>=◌}

-- What holds of the value, if there is one.
abbrev pub Ensures {ℓ κ} : {A : Type ℓ} → (A → Type κ) → Result A → Type κ
Ensures P (returns a) = P a
Ensures P errors = Unit
Ensures P panics = Unit

pub Ensures-bind {ℓ κ μ ν} :
    {A : Type ℓ} {B : Type κ} (P : A → Type μ) (Q : B → Type ν) (r : Result A) (f : A → Result B)
    → Ensures P r
    → ((a : A) → P a → Ensures Q (f a))
    → Ensures Q (r >>= f)
Ensures-bind P Q (returns a) f p h = h a p
Ensures-bind P Q errors f p h = tt
Ensures-bind P Q panics f p h = tt

pub Ensures-imp {ℓ κ μ} :
    {A : Type ℓ} (P : A → Type κ) (Q : A → Type μ) (r : Result A)
    → Ensures P r
    → ((a : A) → P a → Q a)
    → Ensures Q r
Ensures-imp P Q (returns a) p h = h a p
Ensures-imp P Q errors p h = tt
Ensures-imp P Q panics p h = tt

pub Ensures-all {ℓ} : {A : Type ℓ} (r : Result A) → Ensures {ℓ, 0} (λ a. Unit) r
Ensures-all (returns a) = tt
Ensures-all errors = tt
Ensures-all panics = tt

-- What holds of the value, together with where it comes from.
pub Ensures-known {ℓ κ} :
    {A : Type ℓ} (P : A → Type κ) (r : Result A)
    → Ensures P r
    → Ensures (λ a. (r ≡ returns a) × P a) r
Ensures-known P (returns a) p = (refl, p)
Ensures-known P errors p = tt
Ensures-known P panics p = tt

pub Result-cases {ℓ} :
    {A : Type ℓ} (r : Result A) → ((a : A) × (r ≡ returns a)) ⊎ ((r ≡ errors) ⊎ (r ≡ panics))
Result-cases (returns a) = inl (a, refl)
Result-cases errors = inr (inl refl)
Result-cases panics = inr (inr refl)
