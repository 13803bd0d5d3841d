-- ===== src/Sql/Executor/Rows/Insert.antt =====
-- src/sql/executor.cpp: what the rows of an accepted INSERT hold.
use lettydb.Sql.Executor.Rows.Positions.{
  named_position, value_position, Positions, build_column_index-Positions, element, Position, own,
  named, Unnamed, named_position-some, named_position-none, element-some, element_below,
}
use lettydb.Common.{
  ℕ, zero, suc, ◌+◌, ◌<◌, ◌≡◌, ◌⊎◌, inl, inr, refl, sym, subst, ◌∙◌, ap, List, [], ◌∷◌, true, false,
  ◌&&◌, not, Option, none, some, ◌==◌, length, ℕ_discrete, arith,
}
use lettydb.Common.Maps.{find}
use lettydb.Sql.Ast.{Literal, InsertStatement}
use lettydb.Storage.Tuple.{Value}
use lettydb.Catalog.{Column}
use lettydb.Sql.Executor.Names.{NamedAt-find, find-NamedAt, Denotes, Denotes-literal_to_value}
use lettydb.Sql.Executor.{literal_to_value, Failure, ok, Machine, is_null_value}
use lettydb.Sql.Executor.Results.{ok_eq, guard_ok, >>=-ok}
use lettydb.Sql.Executor.Where.{value_at}
use lettydb.Sql.Executor.Rows.{
  ColumnIndex, row_literal, row_values, row_tuple, row_tuples, expected_value_count, insert_tuples,
}

-- A value for each column, NULL only where the column allows it.
abbrev pub NullsAllowed : List Column → List Value → Type 0
NullsAllowed [] [] = Unit {0}
NullsAllowed [] (v ∷ vs) = ⊥
NullsAllowed (c ∷ cs) [] = ⊥
NullsAllowed (c ∷ cs) (v ∷ vs) =
    ((is_null_value v ≡ false) ⊎ (c.nullable ≡ true)) × NullsAllowed cs vs

module _ (machine : Machine) (idx : ColumnIndex) (values : List Literal) where
  -- The value of the column at a schema position.
  abbrev cell : ℕ → Value
  cell si = row_literal machine values (find ℕ_discrete si idx)

  row_values-cons :
      (si : ℕ) (c : Column) (cs : List Column) (vs : List Value)
      → row_values machine idx values si (c ∷ cs) ≡ ok vs
      → (later : List Value) × (vs ≡ cell si ∷ later)
        × (row_values machine idx values (suc si) cs ≡ ok later)
        × ((is_null_value (cell si) && not c.nullable) ≡ false)
  unfolding row_values
  row_values-cons si c cs vs e =
      let (present, e₁) = guard_ok _ _ e in
      let (later, e₂, e₃) = >>=-ok _ _ e₁ in (later, sym (ok_eq e₃), e₂, present)

  row_values-NullsAllowed :
      (si : ℕ) (cs : List Column) (vs : List Value)
      → row_values machine idx values si cs ≡ ok vs
      → NullsAllowed cs vs
  unfolding row_values
  row_values-NullsAllowed si [] vs e = subst (NullsAllowed []) (ok_eq e) tt
  row_values-NullsAllowed si (c ∷ cs) vs e =
      let (later, same, e₁, present) = row_values-cons si c cs vs e in
      rw (same) (ground arith, row_values-NullsAllowed (suc si) cs later e₁)

  row_values-value_at :
      (si : ℕ) (cs : List Column) (vs : List Value) (i : ℕ)
      → row_values machine idx values si cs ≡ ok vs
      → i < length cs
      → value_at vs (some i) ≡ cell (si + i)
  row_values-value_at si [] vs i e l = absurd (omega arith)
  row_values-value_at si (c ∷ cs) vs zero e l =
      let (later, same, e₁, present) = row_values-cons si c cs vs e in
      rw (same) (ap cell (omega arith))
  row_values-value_at si (c ∷ cs) vs (suc i) e l =
      let (later, same, e₁, present) = row_values-cons si c cs vs e in
      rw (same)
        (row_values-value_at (suc si) cs later i e₁ (omega (arith, l)) ∙ ap cell (omega arith))

row_literal-element :
    (machine : Machine) (values : List Literal) (j : ℕ) (l : Literal)
    → element values j ≡ some l
    → row_literal machine values (some j) ≡ literal_to_value machine l
unfolding row_literal
row_literal-element machine [] j l e = absurd (ground arith)
row_literal-element machine (v ∷ vs) zero l e =
    ap (λ k. literal_to_value machine k) {x = v} {y = l} (ground (arith, e))
row_literal-element machine (v ∷ vs) (suc j) l e = row_literal-element machine vs j l e

module _ (machine : Machine) (columns : List Column) (names : List (List ℕ)) where
  -- The value of the column `si` in the row of these literals.
  abbrev pub Cell : List Literal → ℕ → Value → Type 0
  Cell values si v =
      (Unnamed columns names si × (v ≡ Value.null_value))
      ⊎ ((j : ℕ) × (l : Literal) × Position columns names si j
          × (element values j ≡ some l)
          × ((x : Value) → Denotes machine l x → v ≡ x))

  Position-Cell :
      (values : List Literal) (si j : ℕ)
      → Position columns names si j
      → j < length values
      → Cell values si (row_literal machine values (some j))
  Position-Cell values si j p below =
      let (l, e) = element-some values j below in
      inr (
        j,
        l,
        p,
        e,
        λ x d. row_literal-element machine values j l e ∙ Denotes-literal_to_value machine d,
      )

  -- The row that the literals of an INSERT stand for.
  abbrev pub RowOf : List Literal → List Value → Type 0
  RowOf values tuple =
      (length values ≡ expected_value_count names columns)
      × NullsAllowed columns tuple
      × ((si : ℕ) → si < length columns → Cell values si (value_at tuple (some si)))

  abbrev pub RowsOf : List (List Literal) → List (List Value) → Type 0
  RowsOf [] [] = Unit {0}
  RowsOf [] (t ∷ ts) = ⊥
  RowsOf (r ∷ rs) [] = ⊥
  RowsOf (r ∷ rs) (t ∷ ts) = RowOf r t × RowsOf rs ts

  names-Cell :
      (name : List ℕ) (later : List (List ℕ)) (values : List Literal) (si : ℕ) (x : Option ℕ)
      → names ≡ name ∷ later
      → named_position columns 0 (name ∷ later) si ≡ x
      → length values ≡ length (name ∷ later)
      → Cell values si (row_literal machine values x)
  unfolding row_literal
  names-Cell name later values si none same e count = inl (
    (
      λ q. cc,
      λ m j c el n.
          named_position-none columns 0 (name ∷ later) si j m e
            (ap (λ ns. element ns j) (sym same) ∙ el) (NamedAt-find n).0,
    ),
    refl,
  )
  names-Cell name later values si (some i) same e count =
      let (k, m, at, el, found) = named_position-some columns 0 (name ∷ later) si i e in
      let (c, n) = find-NamedAt columns m si found in
      let here : i ≡ k = omega (arith, at) in
      let below = element_below (name ∷ later) k m el in
      let p : Position columns names si i =
        rw (here) (named (ap (λ ns. element ns k) same ∙ el) n) in
      Position-Cell values si i p (omega (arith, below, here, count))

  value_position-Cell :
      (ns : List (List ℕ)) (values : List Literal) (si : ℕ)
      → names ≡ ns
      → length values ≡ expected_value_count ns columns
      → si < length columns
      → Cell values si (row_literal machine values (value_position columns ns si))
  value_position-Cell [] values si same count l =
      Position-Cell values si si (rw (same) own) (omega (arith, l, count))
  value_position-Cell (name ∷ later) values si same count l =
      names-Cell name later values si (value_position columns (name ∷ later) si) same refl count

  row_tuple-RowOf :
      (idx : ColumnIndex) (values : List Literal) (tuple : List Value)
      → Positions columns names idx
      → row_tuple machine idx (expected_value_count names columns) columns values ≡ ok tuple
      → RowOf values tuple
  unfolding row_tuple Positions
  row_tuple-RowOf idx values tuple p e =
      let (count, e₁) =
        guard_ok Failure.value_count (not (length values == expected_value_count names columns))
          e in
      (
        ground (arith, count),
        row_values-NullsAllowed machine idx values 0 columns tuple e₁,
        λ si l.
            subst (Cell values si)
              (sym (
                row_values-value_at machine idx values 0 columns tuple si e₁ l
                ∙ ap (λ i. row_literal machine values i)
                    (subst (λ j. find ℕ_discrete j idx ≡ value_position columns names si) {x = si}
                      (omega arith) (p si l))))
              (value_position-Cell names values si refl (ground (arith, count)) l),
      )

  row_tuples-RowsOf :
      (idx : ColumnIndex) (rows : List (List Literal)) (tuples : List (List Value))
      → Positions columns names idx
      → row_tuples machine idx (expected_value_count names columns) columns rows ≡ ok tuples
      → RowsOf rows tuples
  unfolding row_tuples
  row_tuples-RowsOf idx [] tuples p e = subst (RowsOf []) (ok_eq e) tt
  row_tuples-RowsOf idx (r ∷ rs) tuples p e =
      let (t, e₁, e₂) = >>=-ok _ _ e in
      let (ts, e₃, e₄) = >>=-ok _ _ e₂ in
      subst (RowsOf (r ∷ rs)) {x = t ∷ ts} (ok_eq e₄)
        (row_tuple-RowOf idx r t p e₁, row_tuples-RowsOf idx rs ts p e₃)

-- If the rows of an INSERT are accepted, there is one tuple for each, in order, whose literals are
-- as many as expected, and each column has either a literal, at the place of a name of the column
-- list that stands for the column or at its own place without a list, and then the value that the
-- literal denotes if it denotes one (an integer does if it fits an int32_t), or it has NULL, where
-- no name stands for it; NULL is only where the column allows it.
pub insert_tuples-RowsOf :
    (machine : Machine) (columns : List Column) (node : InsertStatement)
    (tuples : List (List Value))
    → insert_tuples machine node columns ≡ ok tuples
    → RowsOf machine columns node.column_names node.values tuples
unfolding insert_tuples
insert_tuples-RowsOf machine columns node tuples e =
    let (idx, e₁, e₂) = >>=-ok _ _ e in
    row_tuples-RowsOf machine columns node.column_names idx node.values tuples
      (build_column_index-Positions node.column_names columns idx e₁) e₂
