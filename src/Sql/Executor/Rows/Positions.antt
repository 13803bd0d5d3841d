-- ===== src/Sql/Executor/Rows/Positions.antt =====
-- src/sql/executor.cpp: where in the rows of an INSERT the values of the columns stand.
use lettydb.Common.{
  ℕ, zero, suc, ◌+◌, ◌≤◌, ◌<◌, ◌≡◌, ◌≢◌, refl, subst, ◌∙◌, ap, List, [], ◌∷◌, not, Option, none,
  some, if◌then◌else◌, ◌==◌, length, ℕ_discrete, arith, ite,
}
use lettydb.Common.Maps.{find, insert, find-insert}
use lettydb.Catalog.{Column}
use lettydb.Sql.Executor.Names.{NamedAt}
use lettydb.Sql.Executor.{Failure, Result, ok, find_column_index}
use lettydb.Sql.Executor.Results.{ok_eq, guard_ok, >>=-ok}
use lettydb.Sql.Executor.Rows.{
  ColumnIndex, identity_index, named_index, lacks_value, build_column_index, placed,
}

abbrev pub or_else : Option ℕ → Option ℕ → Option ℕ
or_else none y = y
or_else (some x) y = some x

-- `vi`, if the name stands for the column `si`.
abbrev pub when_column : Option ℕ → ℕ → ℕ → Option ℕ
when_column none vi si = none
when_column (some j) vi si = if j == si then some vi else none

-- The value position, from `vi` on, of the last name of the list that stands for the column `si`.
abbrev pub named_position : List Column → ℕ → List (List ℕ) → ℕ → Option ℕ
named_position columns vi [] si = none
named_position columns vi (name ∷ names) si =
    or_else (named_position columns (suc vi) names si)
      (when_column (find_column_index columns name) vi si)

-- The position in a row of the value of the column `si`.
abbrev pub value_position : List Column → List (List ℕ) → ℕ → Option ℕ
value_position columns [] si = some si
value_position columns (name ∷ names) si = named_position columns 0 (name ∷ names) si

identity_index-find :
    (first n si : ℕ)
    → first ≤ si
    → si < first + n
    → find ℕ_discrete si (identity_index first n) ≡ some si
unfolding find identity_index
identity_index-find first zero si h l = absurd (omega arith)
identity_index-find first (suc n) si h l = ground (arith, identity_index-find (suc first) n si)

placed_ok :
    (x : Option ℕ) (k : ℕ → Result ColumnIndex) (r : ColumnIndex)
    → placed x k ≡ ok r
    → (j : ℕ) × (x ≡ some j) × (k j ≡ ok r)
placed_ok none k r e = cc
placed_ok (some j) k r e = (j, refl, e)

or_else_insert :
    (p rest x : Option ℕ) (j vi si : ℕ)
    → x ≡ some j
    → or_else p (ite (ℕ_discrete j si) (some vi) rest)
      ≡ or_else (or_else p (when_column x vi si)) rest
or_else_insert (some k) rest x j vi si e = refl
or_else_insert none rest x j vi si e = rw (e) (ground arith)

named_index-find :
    (columns : List Column) (vi : ℕ) (names : List (List ℕ)) (idx r : ColumnIndex) (si : ℕ)
    → named_index columns vi names idx ≡ ok r
    → find ℕ_discrete si r ≡ or_else (named_position columns vi names si) (find ℕ_discrete si idx)
unfolding named_index
named_index-find columns vi [] idx r si e = ground arith
named_index-find columns vi (name ∷ names) idx r si e =
    let (j, found, step) = placed_ok (find_column_index columns name) _ r e in
    rw
      (
        named_index-find columns (suc vi) names (insert ℕ_discrete j vi idx) r si step,
        find-insert ℕ_discrete j si vi idx,
      )
      (or_else_insert (named_position columns (suc vi) names si) (find ℕ_discrete si idx) _ j vi si
        found)

or_else-none : (x : Option ℕ) → or_else x none ≡ x
or_else-none none = refl
or_else-none (some k) = refl

-- Each column finds its value where `value_position` says.
unfoldable pub Positions : List Column → List (List ℕ) → ColumnIndex → Type 0
Positions columns names idx =
    (si : ℕ) → si < length columns → find ℕ_discrete si idx ≡ value_position columns names si

pub build_column_index-Positions :
    (names : List (List ℕ)) (columns : List Column) (idx : ColumnIndex)
    → build_column_index names columns ≡ ok idx
    → Positions columns names idx
unfolding build_column_index Positions
build_column_index-Positions [] columns idx e si l =
    subst (λ r. find ℕ_discrete si r ≡ some si) (ok_eq e)
      (identity_index-find 0 (length columns) si (omega arith) (omega (arith, l)))
build_column_index-Positions (name ∷ names) columns idx e si l =
    let (within, e₁) = guard_ok _ _ e in
    let (found, e₂, e₃) = >>=-ok _ _ e₁ in
    let (distinct, e₄) =
      guard_ok Failure.duplicate_columns (not (length found == length (name ∷ names))) e₃ in
    let (covered, e₅) = guard_ok Failure.no_value (lacks_value found 0 columns) e₄ in
    subst (λ r. find ℕ_discrete si r ≡ value_position columns (name ∷ names) si) (ok_eq e₅)
      (named_index-find columns 0 (name ∷ names) [] found si e₂
        ∙ or_else-none (named_position columns 0 (name ∷ names) si))

abbrev pub element {ℓ} : {A : Type ℓ} → List A → ℕ → Option A
element [] i = none
element (x ∷ xs) zero = some x
element (x ∷ xs) (suc i) = element xs i

-- Where in a row the value of the column `si` stands: at its own place without a column list, else
-- at the place of a name that stands for it.
pub data Position (columns : List Column) : List (List ℕ) → ℕ → ℕ → Type 0 where
  own : {si : ℕ} → Position columns [] si si
  named :
      {names : List (List ℕ)} {name : List ℕ} {si j : ℕ} {c : Column}
      → element names j ≡ some name
      → NamedAt columns name si c
      → Position columns names si j

-- No name of the column list stands for the column `si`.
abbrev pub Unnamed : List Column → List (List ℕ) → ℕ → Type 0
Unnamed columns names si =
    (names ≢ [])
    × ((name : List ℕ) (j : ℕ) (c : Column)
        → element names j ≡ some name
        → NamedAt columns name si c
        → ⊥)

when_column-some :
    (x : Option ℕ) (vi si j : ℕ) → when_column x vi si ≡ some j → (x ≡ some si) × (j ≡ vi)
when_column-some none vi si j e = absurd (ground arith)
when_column-some (some k) vi si j e = ground arith

pub named_position-some :
    (columns : List Column) (vi : ℕ) (names : List (List ℕ)) (si j : ℕ)
    → named_position columns vi names si ≡ some j
    → (k : ℕ) × (name : List ℕ) × (j ≡ vi + k)
      × (element names k ≡ some name)
      × (find_column_index columns name ≡ some si)
named_position-some columns vi [] si j e = absurd (ground arith)
named_position-some columns vi (name ∷ names) si j e =
    later_or_here (named_position columns (suc vi) names si) refl
      (λ i h. named_position-some columns (suc vi) names si i h)
  where
    later_or_here :
        (x : Option ℕ)
        → named_position columns (suc vi) names si ≡ x
        → ((i : ℕ)
            → named_position columns (suc vi) names si ≡ some i
            → (k : ℕ) × (m : List ℕ) × (i ≡ suc vi + k)
              × (element names k ≡ some m)
              × (find_column_index columns m ≡ some si))
        → (k : ℕ) × (m : List ℕ) × (j ≡ vi + k)
          × (element (name ∷ names) k ≡ some m)
          × (find_column_index columns m ≡ some si)
    later_or_here (some i) h ih =
        let same : i ≡ j = ground (arith, e, h) in
        let (k, m, at, el, found) = ih i h in (suc k, m, omega (arith, same, at), el, found)
    later_or_here none h ih =
        let (found, at) = when_column-some (find_column_index columns name) vi si j (rw (h) at e) in
        (0, name, omega (arith, at), refl, found)

pub named_position-none :
    (columns : List Column) (vi : ℕ) (names : List (List ℕ)) (si k : ℕ) (name : List ℕ)
    → named_position columns vi names si ≡ none
    → element names k ≡ some name
    → find_column_index columns name ≢ some si
named_position-none columns vi [] si k name e h = absurd (ground arith)
named_position-none columns vi (m ∷ names) si zero name e h = λ f.
    let same : m ≡ name = some_eq h in
    ground (
      arith,
      e,
      ap (λ n. find_column_index columns n) same ∙ f,
      named_position columns (suc vi) names si,
    )
  where
    some_eq : {x y : List ℕ} → some x ≡ some y → x ≡ y
    some_eq q = cc
named_position-none columns vi (m ∷ names) si (suc k) name e h =
    named_position-none columns (suc vi) names si k name (rest_none _ _ e) h
  where
    rest_none : (p x : Option ℕ) → or_else p x ≡ none → p ≡ none
    rest_none none x q = refl
    rest_none (some i) x q = absurd (ground arith)

pub element-some :
    {A : Type 0} (xs : List A) (i : ℕ) → i < length xs → (x : A) × (element xs i ≡ some x)
element-some [] i l = absurd (omega arith)
element-some (x ∷ xs) zero l = (x, refl)
element-some (x ∷ xs) (suc i) l = element-some xs i (omega (arith, l))

pub element_below :
    {A : Type 0} (xs : List A) (i : ℕ) (x : A) → element xs i ≡ some x → i < length xs
element_below [] i x e = absurd (ground arith)
element_below (y ∷ ys) zero x e = omega arith
element_below (y ∷ ys) (suc i) x e = omega (arith, element_below ys i x e)
