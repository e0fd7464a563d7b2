-- ===== src/Prelude/Strings.antt =====
-- Go's order on strings, byte by byte, and `sort.Strings`: two lists of distinct strings that have the
-- same members are the same when sorted.
use mathlib.Core.Path.{◌≡◌, refl, sym, ap, ap₂, ◌∙◌}
use mathlib.Core.Logic.{◌⊎◌, inl, inr}
use mathlib.Core.Bool.{Bool, true, false, ◌&&◌, ◌||◌}
use mathlib.Core.List.{List, [], ◌∷◌}
use native.Mathlib.Omega.{arith}
use panorama.Prelude.Tests.{ltb, nat_beq, if◌then◌else◌, Bool-cases}
use panorama.Prelude.Map
use panorama.Prelude.Map.{GoMap}
use panorama.Prelude.Classes.{GoString, string_eq, ◌==◌, str_beq_iff}

unfoldable pub str_ltb : GoString → GoString → Bool
str_ltb s [] = false
str_ltb [] (b ∷ t) = true
str_ltb (a ∷ s) (b ∷ t) = let rest = str_ltb s t in if ltb a b then true else nat_beq a b && rest

str_ltb_irrefl : (s : GoString) → str_ltb s s ≡ false
unfolding str_ltb
str_ltb_irrefl [] = refl
str_ltb_irrefl (a ∷ s) = ground (arith, str_ltb_irrefl s)

str_ltb_trans : (s t u : GoString) → str_ltb s t ≡ true → str_ltb t u ≡ true → str_ltb s u ≡ true
unfolding str_ltb
str_ltb_trans s [] u h k = ground (arith, h)
str_ltb_trans s (b ∷ t) [] h k = ground (arith, k)
str_ltb_trans [] (b ∷ t) (c ∷ u) h k = refl
str_ltb_trans (a ∷ s) (b ∷ t) (c ∷ u) h k = ground (arith, h, k, str_ltb_trans s t u)

str_ltb_total : (s t : GoString) → str_ltb s t ≡ false → s ≡ t ⊎ (str_ltb t s ≡ true)
unfolding str_ltb
str_ltb_total [] [] h = inl refl
str_ltb_total [] (b ∷ t) h = ground (arith, h)
str_ltb_total (a ∷ s) [] h = inr refl
str_ltb_total (a ∷ s) (b ∷ t) h = ground (arith, h, str_ltb_total s t)

abbrev pub mem : GoString → List GoString → Bool
mem k [] = false
mem k (x ∷ xs) = (x == k) || mem k xs

abbrev pub AllDistinct : List GoString → Type 0
AllDistinct [] = Unit
AllDistinct (x ∷ xs) = (mem x xs ≡ false) × AllDistinct xs

unfoldable pub insert : GoString → List GoString → List GoString
insert k [] = k ∷ []
insert k (x ∷ xs) = let rest = insert k xs in if str_ltb x k then x ∷ rest else k ∷ x ∷ xs

unfoldable pub sort_strings : List GoString → List GoString
unfolding insert
sort_strings [] = []
sort_strings (x ∷ xs) = insert x (sort_strings xs)

abbrev IsSorted : List GoString → Type 0
IsSorted [] = Unit
IsSorted (x ∷ xs) = ((k : GoString) → mem k xs ≡ true → str_ltb x k ≡ true) × IsSorted xs

mem-insert : (j k : GoString) (xs : List GoString) → mem j (insert k xs) ≡ ((k == j) || mem j xs)
unfolding insert
mem-insert j k [] = refl
mem-insert j k (x ∷ xs) = ground (arith, mem-insert j k xs)

mem-sort_strings : (j : GoString) (xs : List GoString) → mem j (sort_strings xs) ≡ mem j xs
unfolding sort_strings
mem-sort_strings j [] = refl
mem-sort_strings j (x ∷ xs) =
    mem-insert j x (sort_strings xs) ∙ ap (λ b. (x == j) || b) (mem-sort_strings j xs)

insert-IsSorted :
    (k : GoString) (xs : List GoString) → mem k xs ≡ false → IsSorted xs → IsSorted (insert k xs)
unfolding insert
insert-IsSorted k [] m h = ((λ j e. ground (arith, e)), tt)
insert-IsSorted k (x ∷ xs) m h = elim (Bool-cases (str_ltb x k)) [
  | inl e ↦
      rw (insert, e)
        (
          λ j f. ground (arith, e, f, mem-insert j k xs, str_beq_iff k j, h.0 j),
          insert-IsSorted k xs (ground (arith, m)) h.1,
        )
  | inr e ↦
      rw (insert, e)
        (
          λ j f.
              let below : str_ltb k x ≡ true =
                ground (arith, e, m, str_ltb_total x k, str_beq_iff x k) in
              ground (arith, f, below, str_beq_iff x j, h.0 j, str_ltb_trans k x j),
          h,
        )
]

sort_strings-IsSorted : (xs : List GoString) → AllDistinct xs → IsSorted (sort_strings xs)
unfolding sort_strings
sort_strings-IsSorted [] d = tt
sort_strings-IsSorted (x ∷ xs) d =
    insert-IsSorted x (sort_strings xs) (mem-sort_strings x xs ∙ d.0) (sort_strings-IsSorted xs d.1)

IsSorted-fresh : (x : GoString) (xs : List GoString) → IsSorted (x ∷ xs) → mem x xs ≡ false
IsSorted-fresh x xs h = ground (arith, h.0 x, str_ltb_irrefl x)

heads_same :
    (x y : GoString) (xs ys : List GoString)
    → IsSorted (x ∷ xs)
    → IsSorted (y ∷ ys)
    → ((k : GoString) → mem k (x ∷ xs) ≡ mem k (y ∷ ys))
    → x ≡ y
heads_same x y xs ys h k m = ground (
  arith,
  m x,
  m y,
  str_beq_iff x y,
  str_beq_iff y x,
  str_beq_iff x x,
  str_beq_iff y y,
  h.0 y,
  k.0 x,
  str_ltb_trans x y x,
  str_ltb_irrefl x,
)

sorted_unique :
    (xs ys : List GoString)
    → IsSorted xs
    → IsSorted ys
    → ((k : GoString) → mem k xs ≡ mem k ys)
    → xs ≡ ys
sorted_unique [] [] h k m = refl
sorted_unique [] (y ∷ ys) h k m = ground (arith, m y, str_beq_iff y y)
sorted_unique (x ∷ xs) [] h k m = ground (arith, m x, str_beq_iff x x)
sorted_unique (x ∷ xs) (y ∷ ys) h k m =
    let same : x ≡ y = heads_same x y xs ys h k m in
    ap₂ (λ z zs. z ∷ zs) same
      (sorted_unique xs ys h.1 k.1 λ j. ground (
        arith,
        m j,
        same,
        str_beq_iff x j,
        str_beq_iff y j,
        IsSorted-fresh x xs h,
        IsSorted-fresh y ys k,
      ))

-- Sorting distinct strings depends on their members alone.
pub sort_strings-mem :
    (xs ys : List GoString)
    → AllDistinct xs
    → AllDistinct ys
    → ((k : GoString) → mem k xs ≡ mem k ys)
    → sort_strings xs ≡ sort_strings ys
sort_strings-mem xs ys d e m =
    sorted_unique (sort_strings xs) (sort_strings ys) (sort_strings-IsSorted xs d)
      (sort_strings-IsSorted ys e) λ k. mem-sort_strings k xs ∙ m k ∙ sym (mem-sort_strings k ys)

-- for key := range m { keys = append(keys, key) }
abbrev pub keys_of {ℓ} : {V : Type ℓ} → GoMap GoString V → List GoString
keys_of [] = []
keys_of ((k, v) ∷ m) = k ∷ keys_of m

module _ {ℓ} {V : Type ℓ} where
  pub mem-keys_of : (k : GoString) (m : GoMap GoString V) → mem k (keys_of m) ≡ Map.has k m
  unfolding Map.get
  mem-keys_of k [] = refl
  mem-keys_of k ((j, v) ∷ m) = ground (arith, mem-keys_of k m)

  pub keys_of-AllDistinct : (m : GoMap GoString V) → Map.Distinct m → AllDistinct (keys_of m)
  keys_of-AllDistinct [] d = tt
  keys_of-AllDistinct ((k, v) ∷ m) d = (mem-keys_of k m ∙ rw d.0, keys_of-AllDistinct m d.1)
