-- ===== src/Common/Lists.antt =====
-- Lists measured by native numbers, membership tests, and lists without repetitions.
use Prim.Native.Nat.{ℕ, suc, ◌+◌}
use mathlib.Core.Bool.{Bool, false, ◌||◌}
use mathlib.Core.List.{List, [], ◌∷◌, ◌++◌}
use mathlib.Core.Path.{◌≡◌, refl}
use native.Mathlib.Omega.{arith}
use lettydb.Common.Tests.{◌==◌, if◌then◌else◌}

module _ {ℓ} {A : Type ℓ} where
  abbrev pub length : List A → ℕ
  length [] = 0
  length (x ∷ xs) = suc (length xs)

  pub length-append : (xs ys : List A) → length (xs ++ ys) ≡ length xs + length ys
  length-append [] ys = omega arith
  length-append (x ∷ xs) ys = omega (arith, length-append xs ys)

abbrev pub elem : ℕ → List ℕ → Bool
elem k [] = false
elem k (x ∷ xs) = x == k || elem k xs

-- Every occurrence of `k` is taken out.
abbrev pub remove : ℕ → List ℕ → List ℕ
remove k [] = []
remove k (x ∷ xs) = if x == k then remove k xs else x ∷ remove k xs

abbrev pub IsDistinct : List ℕ → Type 0
IsDistinct [] = Unit {0}
IsDistinct (x ∷ xs) = (elem x xs ≡ false) × IsDistinct xs

pub elem-append : (k : ℕ) (xs ys : List ℕ) → elem k (xs ++ ys) ≡ (elem k xs || elem k ys)
elem-append k [] ys = refl
elem-append k (x ∷ xs) ys = ground (arith, elem-append k xs ys)

pub elem-remove :
    (k j : ℕ) (xs : List ℕ) → elem j (remove k xs) ≡ (if k == j then false else elem j xs)
elem-remove k j [] = ground arith
elem-remove k j (x ∷ xs) = ground (arith, elem-remove k j xs)

pub remove_absent : (k : ℕ) (xs : List ℕ) → elem k xs ≡ false → remove k xs ≡ xs
remove_absent k [] h = refl
remove_absent k (x ∷ xs) h = ground (arith, remove_absent k xs)

pub append-IsDistinct :
    (k : ℕ) (xs : List ℕ) → IsDistinct xs → elem k xs ≡ false → IsDistinct (xs ++ k ∷ [])
append-IsDistinct k [] d h = (refl, tt)
append-IsDistinct k (x ∷ xs) d h =
    ground (arith, elem-append x xs (k ∷ []), append-IsDistinct k xs d.1)
