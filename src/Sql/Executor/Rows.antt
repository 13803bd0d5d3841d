-- ===== src/Sql/Executor/Rows.antt =====
-- src/sql/executor.cpp: the rows of INSERT, the columns of CREATE TABLE and of SELECT.
pub mod Positions
pub mod Insert
pub mod Layout
use lettydb.Common.{
  ℕ, zero, suc, ℤ, pos, negsuc, ◌+◌, ◌%◌, ◌^◌, List, [], ◌∷◌, Bool, true, false, ◌&&◌, not, Option,
  none, some, if◌then◌else◌, ◌==◌, ltb, length, ℕ_discrete,
}
use lettydb.Common.Maps.{find, insert}
use lettydb.Sql.Token.{TokenType}
use lettydb.Sql.Ast.{
  Literal, Expression, SelectColumn, SelectStatement, ColumnDefinition, InsertStatement,
}
use lettydb.Storage.Tuple.{DataType, Value}
use lettydb.Catalog.{Column, fixed_length_of}
use lettydb.Sql.Executor.{
  Failure, Result, ok, failed, ◌>>=◌, Machine, is_null_value, literal_to_value, find_column_index,
  tuple_matches_where, project_tuple,
}

unfoldable pub token_type_to_data_type : TokenType → DataType
token_type_to_data_type TokenType.int_token = DataType.integer_type
token_type_to_data_type TokenType.float_token = DataType.double_type
token_type_to_data_type TokenType.varchar_token = DataType.varchar_type
token_type_to_data_type TokenType.bool_token = DataType.boolean_type
token_type_to_data_type TokenType.date_token = DataType.date_type
token_type_to_data_type TokenType.timestamp_token = DataType.timestamp_type
token_type_to_data_type k = DataType.varchar_type

-- The size of VARCHAR, an int, as a uint16_t, with the size that stands for none.
unfoldable pub varchar_length : ℤ → ℕ
varchar_length (pos zero) = 255
varchar_length (pos (suc n)) = suc n % 2 ^ 16
varchar_length (negsuc n) = 255

unfoldable pub column_length : DataType → ℤ → ℕ
unfolding varchar_length fixed_length_of
column_length DataType.varchar_type size = varchar_length size
column_length k size = fixed_length_of k

-- The loop of `execute_create_table`, with `current_offset`, which is a uint16_t.
unfoldable pub table_columns : ℕ → List ColumnDefinition → List Column
unfolding token_type_to_data_type column_length
table_columns offset [] = []
table_columns offset (d ∷ ds) =
    let kind = token_type_to_data_type d.data_type in
    let width = column_length kind d.size in
    record {
      name = d.column_name;
      data_type = kind;
      length = width;
      offset = offset;
      nullable = d.nullable;
    }
    ∷ table_columns ((offset + width) % 2 ^ 16) ds

-- A map of schema positions to value positions.
abbrev pub ColumnIndex : Type 0
ColumnIndex = List (ℕ × ℕ)

-- Without a column list each position stands for itself.
unfoldable pub identity_index : ℕ → ℕ → ColumnIndex
identity_index first zero = []
identity_index first (suc n) = (first, first) ∷ identity_index (suc first) n

-- A schema position, or the error for a name that stands for no column.
abbrev pub placed : Option ℕ → (ℕ → Result ColumnIndex) → Result ColumnIndex
placed none k = failed Failure.unknown_column
placed (some si) k = k si

-- The loop over the names, from the value position `vi` on.
unfoldable pub named_index : List Column → ℕ → List (List ℕ) → ColumnIndex → Result ColumnIndex
unfolding find_column_index insert
named_index columns vi [] idx = ok idx
named_index columns vi (name ∷ names) idx =
    placed (find_column_index columns name)
      (λ si. named_index columns (suc vi) names (insert ℕ_discrete si vi idx))

abbrev is_none : Option ℕ → Bool
is_none none = true
is_none (some i) = false

-- A NOT NULL column, from the schema position `si` on, that has no value.
unfoldable pub lacks_value : ColumnIndex → ℕ → List Column → Bool
unfolding find
lacks_value idx si [] = false
lacks_value idx si (c ∷ cs) =
    let later = lacks_value idx (suc si) cs in
    if is_none (find ℕ_discrete si idx) && not c.nullable then true else later

unfoldable pub build_column_index : List (List ℕ) → List Column → Result ColumnIndex
unfolding identity_index named_index lacks_value
build_column_index [] columns = ok (identity_index 0 (length columns))
build_column_index (name ∷ names) columns =
    if ltb (length columns) (length (name ∷ names))
    then failed Failure.more_columns
    else named_index columns 0 (name ∷ names) [] >>= λ idx.
        if not (length idx == length (name ∷ names))
        then failed Failure.duplicate_columns
        else (if lacks_value idx 0 columns then failed Failure.no_value else ok idx)

abbrev pub expected_value_count : List (List ℕ) → List Column → ℕ
expected_value_count [] columns = length columns
expected_value_count (name ∷ names) columns = length (name ∷ names)

module _ (machine : Machine) where
  -- The value of a literal of the row; the position is below its size.
  unfoldable pub row_literal : List Literal → Option ℕ → Value
  unfolding literal_to_value
  row_literal values none = Value.null_value
  row_literal [] (some i) = Value.null_value
  row_literal (v ∷ vs) (some zero) = literal_to_value machine v
  row_literal (v ∷ vs) (some (suc i)) = row_literal vs (some i)

  -- The loop over the columns, from the schema position `si` on.
  unfoldable pub row_values : ColumnIndex → List Literal → ℕ → List Column → Result (List Value)
  unfolding find row_literal
  row_values idx values si [] = ok []
  row_values idx values si (c ∷ cs) =
      let later = row_values idx values (suc si) cs in
      let v = row_literal values (find ℕ_discrete si idx) in
      if is_null_value v && not c.nullable
      then failed Failure.null_in_column
      else later >>= λ vs. ok (v ∷ vs)

  unfoldable pub row_tuple : ColumnIndex → ℕ → List Column → List Literal → Result (List Value)
  unfolding row_values
  row_tuple idx expected columns values =
      if not (length values == expected)
      then failed Failure.value_count
      else row_values idx values 0 columns

  unfoldable pub row_tuples :
      ColumnIndex → ℕ → List Column → List (List Literal) → Result (List (List Value))
  unfolding row_tuple
  row_tuples idx expected columns [] = ok []
  row_tuples idx expected columns (row ∷ rows) = row_tuple idx expected columns row >>= λ t.
      row_tuples idx expected columns rows >>= λ ts. ok (t ∷ ts)

  -- The tuples that `execute_insert` builds before it inserts any.
  unfoldable pub insert_tuples : InsertStatement → List Column → Result (List (List Value))
  unfolding build_column_index row_tuples
  insert_tuples node columns = build_column_index node.column_names columns >>= λ idx.
      row_tuples idx (expected_value_count node.column_names columns) columns node.values
