-- ===== src/Sql/Executor/Rows/Layout.antt =====
-- src/sql/executor.cpp: the types and offsets that CREATE TABLE gives to the columns.
use lettydb.Common.{ℕ, suc, ℤ, pos, ◌+◌, ◌<◌, ◌%◌, ◌^◌, ◌≡◌, refl, List, [], ◌∷◌, arith}
use lettydb.Sql.Token.{TokenType}
use lettydb.Sql.Ast.{ColumnDefinition}
use lettydb.Storage.Tuple.{DataType}
use lettydb.Catalog.{Column, fixed_length_of}
use lettydb.Sql.Executor.Rows.{
  token_type_to_data_type, varchar_length, column_length, table_columns,
}

-- The type and the width that a keyword and a size declare.
pub data Declares : TokenType → ℤ → DataType → ℕ → Type 0 where
  int : {size : ℤ} → Declares TokenType.int_token size DataType.integer_type 4
  float : {size : ℤ} → Declares TokenType.float_token size DataType.double_type 8
  bool : {size : ℤ} → Declares TokenType.bool_token size DataType.boolean_type 1
  date : {size : ℤ} → Declares TokenType.date_token size DataType.date_type 10
  timestamp : {size : ℤ} → Declares TokenType.timestamp_token size DataType.timestamp_type 19
  varchar :
      (n : ℕ)
      → suc n < 2 ^ 16
      → Declares TokenType.varchar_token (pos (suc n)) DataType.varchar_type (suc n)
  varchar_of_any_size : Declares TokenType.varchar_token (pos 0) DataType.varchar_type 255

-- The types and widths of a list of definitions.
pub data AllDeclare : List ColumnDefinition → List (DataType × ℕ) → Type 0 where
  nothing : AllDeclare [] []
  one_more :
      {d : ColumnDefinition} {ds : List ColumnDefinition} {kind : DataType} {width : ℕ}
      {shapes : List (DataType × ℕ)}
      → Declares d.data_type d.size kind width
      → AllDeclare ds shapes
      → AllDeclare (d ∷ ds) ((kind, width) ∷ shapes)

abbrev pub total_width : List (DataType × ℕ) → ℕ
total_width [] = 0
total_width ((kind, width) ∷ shapes) = width + total_width shapes

-- One column for each definition, of its type and width, each where the one before it ends.
pub data LaidOut : ℕ → List ColumnDefinition → List (DataType × ℕ) → List Column → Type 0 where
  done : {offset : ℕ} → LaidOut offset [] [] []
  column :
      {offset : ℕ} {d : ColumnDefinition} {ds : List ColumnDefinition} {kind : DataType} {width : ℕ}
      {shapes : List (DataType × ℕ)} {c : Column} {cs : List Column}
      → (c.name ≡ d.column_name)
        × (c.nullable ≡ d.nullable)
        × (c.data_type ≡ kind)
        × (c.length ≡ width)
        × (c.offset ≡ offset)
        × (c.offset + c.length < 2 ^ 16)
      → LaidOut (offset + width) ds shapes cs
      → LaidOut offset (d ∷ ds) ((kind, width) ∷ shapes) (c ∷ cs)

Declares-types :
    {t : TokenType} {size : ℤ} {kind : DataType} {width : ℕ}
    → Declares t size kind width
    → (token_type_to_data_type t ≡ kind) × (column_length (token_type_to_data_type t) size ≡ width)
unfolding token_type_to_data_type column_length varchar_length fixed_length_of
Declares-types Declares.int = (refl, refl)
Declares-types Declares.float = (refl, refl)
Declares-types Declares.bool = (refl, refl)
Declares-types Declares.date = (refl, refl)
Declares-types Declares.timestamp = (refl, refl)
Declares-types (Declares.varchar n h) = (refl, omega (arith, h))
Declares-types Declares.varchar_of_any_size = (refl, refl)

-- If each definition has a type that CREATE TABLE knows (INT of 4 bytes, FLOAT of 8, BOOL of 1,
-- DATE of 10, TIMESTAMP of 19, VARCHAR of its size below 2^16, or of 255 without one), and the
-- widths, from a first offset on, add up to less than 2^16, then CREATE TABLE makes one column for
-- each definition, with its name, type, width and nullability, each at the offset where the one
-- before it ends, and no offset or end wraps around.
pub table_columns-LaidOut :
    {ds : List ColumnDefinition} {shapes : List (DataType × ℕ)} (offset : ℕ)
    → AllDeclare ds shapes
    → offset + total_width shapes < 2 ^ 16
    → LaidOut offset ds shapes (table_columns offset ds)
unfolding table_columns
table_columns-LaidOut offset nothing h = done
table_columns-LaidOut offset (one_more {d} {ds} {kind} {width} {shapes} declared all) h =
    let (same_kind, same_width) = Declares-types declared in
    let next = offset + width in
    let rest = table_columns-LaidOut next all (omega (arith, h)) in
    let fits : (offset + column_length (token_type_to_data_type d.data_type) d.size) % 2 ^ 16
        ≡ next =
      omega (arith, h, same_width) in
    column (refl, refl, same_kind, same_width, refl, omega (arith, h, same_width)) (rw (fits) rest)
