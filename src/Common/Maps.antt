-- ===== src/Common/Maps.antt =====
-- A finite map as an association list over keys with a decidable equality. The laws of `insert`
-- and `erase` hold at every key, so they need no side condition.
use mathlib.Core.List.{List, [], ◌∷◌}
use mathlib.Core.Logic.{ite}
use mathlib.Core.Option.{Option, none, some}
use mathlib.Core.Path.{◌≡◌}
use native.Mathlib.Omega.{arith}

module _ {ℓ} {K V : Type ℓ} (dec : Discrete K) where
  unfoldable pub find : K → List (K × V) → Option V
  find k [] = none
  find k ((j, v) ∷ m) = ite (dec j k) (some v) (find k m)

  unfoldable pub erase : K → List (K × V) → List (K × V)
  erase k [] = []
  erase k ((j, v) ∷ m) = ite (dec j k) (erase k m) ((j, v) ∷ erase k m)

  unfoldable pub insert : K → V → List (K × V) → List (K × V)
  insert k v m = (k, v) ∷ erase k m

  pub find-erase : (k j : K) (m : List (K × V)) → find j (erase k m) ≡ ite (dec k j) none (find j m)
  unfolding find erase
  find-erase k j [] = ground arith
  find-erase k j ((i, v) ∷ m) = ground (arith, find-erase k j m)

  pub find-insert :
      (k j : K) (v : V) (m : List (K × V))
      → find j (insert k v m) ≡ ite (dec k j) (some v) (find j m)
  unfolding find insert
  find-insert k j v m = ground (arith, find-erase k j m)

  -- Each key stands once.
  abbrev pub IsUnique : List (K × V) → Type ℓ
  IsUnique [] = Unit {ℓ}
  IsUnique ((k, v) ∷ m) = (find k m ≡ none) × IsUnique m

  pub erase-IsUnique : (k : K) (m : List (K × V)) → IsUnique m → IsUnique (erase k m)
  unfolding erase
  erase-IsUnique k [] u = tt
  erase-IsUnique k ((j, v) ∷ m) u = ground (arith, find-erase k j m, erase-IsUnique k m u.1)

  pub insert-IsUnique : (k : K) (v : V) (m : List (K × V)) → IsUnique m → IsUnique (insert k v m)
  unfolding insert
  insert-IsUnique k v m u = (ground (arith, find-erase k k m), erase-IsUnique k m u)

  -- Every entry of the first list is what a search in the second finds.
  abbrev pub AllFound : List (K × V) → List (K × V) → Type ℓ
  AllFound [] m = Unit {ℓ}
  AllFound ((k, v) ∷ r) m = (find k m ≡ some v) × AllFound r m

  AllFound-cons :
      (k : K) (v : V) (r m : List (K × V))
      → find k m ≡ none
      → AllFound r m
      → AllFound r ((k, v) ∷ m)
  unfolding find
  AllFound-cons k v [] m h a = tt
  AllFound-cons k v ((j, w) ∷ r) m h a = (ground arith, AllFound-cons k v r m h a.1)

  pub IsUnique-AllFound : (m : List (K × V)) → IsUnique m → AllFound m m
  unfolding find
  IsUnique-AllFound [] u = tt
  IsUnique-AllFound ((k, v) ∷ m) u =
      (ground arith, AllFound-cons k v m m u.0 (IsUnique-AllFound m u.1))
