-- ===== src/Catalog.antt =====
-- src/catalog/column.h and schema.h: the columns of a table. A Schema is the list of its columns.
use lettydb.Common.{ℕ, List, [], ◌∷◌, Bool}
use lettydb.Storage.Tuple
use lettydb.Storage.Tuple.{DataType}

pub record Column : Type 0 where
  pub name : List ℕ
  pub data_type : DataType
  pub length : ℕ
  pub offset : ℕ
  pub nullable : Bool

unfoldable pub fixed_length_of : DataType → ℕ
fixed_length_of DataType.integer_type = 4
fixed_length_of DataType.double_type = 8
fixed_length_of DataType.boolean_type = 1
fixed_length_of DataType.date_type = 10
fixed_length_of DataType.timestamp_type = 19
fixed_length_of DataType.varchar_type = 0

-- What src/storage/tuple.cpp reads of a column.
abbrev pub stored_column : Column → Tuple.Column
stored_column c = record { data_type = c.data_type; length = c.length }

abbrev pub stored_columns : List Column → List Tuple.Column
stored_columns [] = []
stored_columns (c ∷ cs) = stored_column c ∷ stored_columns cs
