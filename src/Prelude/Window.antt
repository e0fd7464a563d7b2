-- ===== src/Prelude/Window.antt =====
-- The last elements of a list, and a bounded append that keeps them.
use Prim.Native.Nat.{ℕ, zero, suc, ◌+◌, ◌-◌, ◌≤◌}
use mathlib.Core.Path.{◌≡◌, refl}
use mathlib.Core.Logic.{inl, inr}
use mathlib.Core.Bool.{true, false}
use mathlib.Core.List.{List, [], ◌∷◌, ◌++◌}
use native.Mathlib.Omega.{arith}
use panorama.Prelude.Tests.{ltb, if◌then◌else◌, Bool-cases}
use panorama.Prelude.Lists.{length, drop, length-append}

-- The last `n` elements.
unfoldable pub last {ℓ} : {A : Type ℓ} → ℕ → List A → List A
last n xs = drop (length xs - n) xs

zero_sub : (n : ℕ) → 0 - n ≡ 0
zero_sub n = omega arith

module _ {ℓ} {A : Type ℓ} where
  length-drop : (n : ℕ) (xs : List A) → length (drop n xs) ≡ length xs - n
  length-drop zero xs = omega arith
  length-drop (suc n) [] = omega arith
  length-drop (suc n) (x ∷ xs) = omega (arith, length-drop n xs)

  drop-append : (n : ℕ) (xs ys : List A) → n ≤ length xs → drop n (xs ++ ys) ≡ drop n xs ++ ys
  drop-append zero xs ys h = refl
  drop-append (suc n) [] ys h = absurd (omega arith)
  drop-append (suc n) (x ∷ xs) ys h = drop-append n xs ys (omega arith)

  drop-drop : (m : ℕ) (xs : List A) → drop 1 (drop m xs) ≡ drop (suc m) xs
  drop-drop zero xs = refl
  drop-drop (suc m) [] = refl
  drop-drop (suc m) (x ∷ xs) = drop-drop m xs

  pub length-last-le : (n : ℕ) (xs : List A) → length (last n xs) ≤ n
  unfolding last
  length-last-le n xs = omega (arith, length-drop (length xs - n) xs)

  -- Appending to the last `cap` elements and dropping the first one if there are more than `cap`
  -- gives the last `cap` elements of the longer list.
  pub push-last :
      (cap : ℕ) (xs : List A) (x : A)
      → (if ltb cap (length (last cap xs ++ x ∷ []))
          then drop 1 (last cap xs ++ x ∷ [])
          else last cap xs ++ x ∷ [])
        ≡ last cap (xs ++ x ∷ [])
  unfolding last
  push-last cap xs x =
      let k = length xs - cap in
      let longer = xs ++ x ∷ [] in
      let size : length longer ≡ length xs + 1 = length-append xs (x ∷ []) in
      rw (← drop-append k xs (x ∷ []) (omega arith)) (elim (Bool-cases (ltb (length xs) cap)) [
        | inr full ↦
            let next : length longer - cap ≡ suc k = ground arith in
            let over : ltb cap (length (drop k longer)) ≡ true =
              ground (arith, length-drop k longer) in
            rw (over, next) (drop-drop k longer)
        | inl room ↦
            let start : k ≡ 0 = ground arith in
            let next : length longer - cap ≡ 0 = ground arith in
            let fits : ltb cap (length longer) ≡ false = ground arith in rw (start, next) (rw fits)
      ])

  pub last-nil : (n : ℕ) (xs : List A) → xs ≡ [] → last n xs ≡ []
  unfolding last
  last-nil n [] e = rw (zero_sub n)
  last-nil n (x ∷ xs) e = cc

  pub last-short : (n : ℕ) (xs : List A) → length xs ≤ n → last n xs ≡ xs
  unfolding last
  last-short n xs h = let start : length xs - n ≡ 0 = omega arith in rw start
