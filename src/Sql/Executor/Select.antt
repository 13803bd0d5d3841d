-- ===== src/Sql/Executor/Select.antt =====
-- src/sql/executor.cpp: execute_select on the rows that the scanner returns, which are given as a
-- list of tuples.
pub mod Reference
use lettydb.Common.{
  ℕ, zero, suc, List, [], ◌∷◌, Bool, true, false, Option, none, some, if◌then◌else◌, length,
}
use lettydb.Sql.Ast.{Expression, SelectColumn, SelectStatement}
use lettydb.Storage.Tuple.{Value}
use lettydb.Catalog.{Column}
use lettydb.Sql.Executor.{
  Failure, Result, ok, failed, ◌>>=◌, Machine, find_column_index, tuple_matches_where,
  project_tuple,
}

-- A column of the result: its header and its position in the table.
pub record Pick : Type 0 where
  pub header : List ℕ
  pub index : ℕ

-- SELECT *, from the schema position `i` on.
unfoldable pub all_columns : ℕ → List Column → List Pick
all_columns i [] = []
all_columns i (c ∷ cs) = record { header = c.name; index = i } ∷ all_columns (suc i) cs

unfoldable pub column_name_of : Expression → Result (List ℕ)
column_name_of (Expression.identifier name) = ok name
column_name_of (Expression.qualified table name) = ok name
column_name_of e = failed Failure.unsupported_expression

abbrev pub header_of : List ℕ → List ℕ → List ℕ
header_of [] name = name
header_of (c ∷ cs) name = c ∷ cs

abbrev pub picked : List ℕ → Option ℕ → Result Pick
picked header none = failed Failure.unknown_column
picked header (some i) = ok (record { header = header; index = i })

unfoldable pub pick_columns : List SelectColumn → List Column → Result (List Pick)
unfolding column_name_of find_column_index
pick_columns [] columns = ok []
pick_columns (s ∷ ss) columns = column_name_of s.expression >>= λ name.
    picked (header_of s.alias name) (find_column_index columns name) >>= λ p.
    pick_columns ss columns >>= λ ps. ok (p ∷ ps)

unfoldable pub select_columns : SelectStatement → List Column → Result (List Pick)
unfolding all_columns pick_columns
select_columns node columns =
    if node.is_select_all then ok (all_columns 0 columns) else pick_columns node.columns columns

abbrev pub indexes : List Pick → List ℕ
indexes [] = []
indexes (p ∷ ps) = p.index ∷ indexes ps

abbrev pub headers : List Pick → List (List ℕ)
headers [] = []
headers (p ∷ ps) = p.header ∷ headers ps

module _ (machine : Machine) where
  -- The loop over the scanned rows.
  unfoldable pub select_rows :
      Option Expression → List ℕ → List Column → List (List Value) → Result (List (List Value))
  unfolding tuple_matches_where project_tuple
  select_rows clause is columns [] = ok []
  select_rows clause is columns (t ∷ ts) =
      let rest = select_rows clause is columns ts in
      tuple_matches_where machine clause t columns >>= λ b.
      if b then project_tuple t is >>= (λ row. rest >>= λ rows. ok (row ∷ rows)) else rest

  unfoldable pub execute_select :
      SelectStatement → List Column → List (List Value) → Result (List (List ℕ) × List (List Value))
  unfolding select_columns select_rows
  execute_select node columns scanned = select_columns node columns >>= λ picks.
      select_rows node.where_clause (indexes picks) columns scanned >>= λ rows.
      ok (headers picks, rows)
