-- ===== src/Sql/Executor/Tests.antt =====
-- A table, and the theorems of src/sql/executor.cpp at it.
use lettydb.Common.{
  ℕ, ℤ, pos, negsuc, ◌^◌, ◌-◌, ◌<◌, ◌≡◌, refl, List, [], ◌∷◌, Bool, true, false, Option, some, none,
  inl, inr, arith, ltb,
}
use lettydb.Sql.Token.{TokenType}
use lettydb.Sql.Ast.{Literal, Expression, SelectStatement, InsertStatement, ColumnDefinition}
use lettydb.Sql.Parser.Expressions.{or_text}
use lettydb.Storage.Tuple.{DataType, Value}
use lettydb.Catalog.{Column}
use lettydb.Sql.Executor.{Failure, Result, ok, failed, Machine, evaluate_where_clause}
use lettydb.Sql.Executor.Where.{below, Operand, WellTyped, three_valued, is_true}
use lettydb.Sql.Executor.Names.{NamedAt, here, there, Denotes}
use lettydb.Sql.Executor.Where.Logic
use lettydb.Sql.Executor.Rows.{insert_tuples, table_columns}
use lettydb.Sql.Executor.Rows.Insert
use lettydb.Sql.Executor.Rows.Insert.{RowsOf}
use lettydb.Sql.Executor.Rows.Layout
use lettydb.Sql.Executor.Rows.Layout.{LaidOut, AllDeclare, Declares}
use lettydb.Sql.Executor.Select.{execute_select}
use lettydb.Sql.Executor.Select.Reference
use lettydb.Sql.Executor.Select.Reference.{
  cells, filtered, Selection, listed, one_more, plain, own_name, nothing,
}

-- Doubles as their numbers of units, below zero as 0.
abbrev units : ℤ → ℕ
units (pos n) = n
units (negsuc n) = 0

abbrev machine : Machine
machine = record {
  int_as_double = units;
  double_lt = ltb;
  snprintf_date = λ d. [];
  snprintf_timestamp = λ t. [];
}

ltb_asym : (x y : ℕ) → ltb x y ≡ true → ltb y x ≡ false
ltb_asym x y h = ground arith

-- id INT NOT NULL, n INT
abbrev id : List ℕ
id = 105 ∷ 100 ∷ []

abbrev n : List ℕ
n = 110 ∷ []

abbrev id_column : Column
id_column = record {
  name = id;
  data_type = DataType.integer_type;
  length = 4;
  offset = 0;
  nullable = false;
}

abbrev n_column : Column
n_column = record {
  name = n;
  data_type = DataType.integer_type;
  length = 4;
  offset = 4;
  nullable = true;
}

abbrev columns : List Column
columns = id_column ∷ n_column ∷ []

abbrev one_null : List Value
one_null = Value.integer (pos 1) ∷ Value.null_value ∷ []

abbrev two_five : List Value
two_five = Value.integer (pos 2) ∷ Value.integer (pos 5) ∷ []

-- n < 7 OR id IS NULL
abbrev condition : Expression
condition =
    Expression.binary
      (Expression.binary (Expression.identifier n) (60 ∷ [])
        (Expression.literal (Literal.integer (pos 7))))
      or_text (Expression.is_null (Expression.identifier id) false)

program : Unit {0}
unfolding lettydb.Sql.Executor.find_column_index lettydb.Sql.Executor.literal_to_value
    lettydb.Sql.Executor.Rows.insert_tuples lettydb.Sql.Executor.Select.select_columns
    lettydb.Sql.Executor.Rows.table_columns lettydb.Sql.Executor.evaluate_where_clause
    lettydb.Storage.Tuple.word_int lettydb.Storage.Tuple.int_word lettydb.Common.Maps.find
    lettydb.Common.Maps.insert lettydb.Common.Maps.erase lettydb.Common.ℕ_discrete
program = tt

n-NamedAt : NamedAt columns n 1 n_column
n-NamedAt = there (λ e. cc) (here refl)

id-NamedAt : NamedAt columns id 0 id_column
id-NamedAt = here refl

condition-WellTyped : WellTyped machine columns condition
condition-WellTyped =
    WellTyped.either
      (WellTyped.compare below (Operand.column n-NamedAt)
        (Operand.constant (Denotes.integer (pos 7) (omega arith)) (inr tt)))
      (WellTyped.null_test (Operand.column id-NamedAt))

evaluate_where_clause-three_valued_example :
    evaluate_where_clause machine condition one_null columns
    ≡ ok (is_true (three_valued machine columns condition-WellTyped one_null))
evaluate_where_clause-three_valued_example =
    Logic.evaluate_where_clause-three_valued machine ltb_asym columns one_null
      (inr tt, (inl (refl, refl), tt)) condition-WellTyped

-- A column that is NULL is no condition.
null_flag :
    evaluate_where_clause machine (Expression.identifier n) one_null columns
    ≡ failed Failure.type_mismatch
unfolding program lettydb.Sql.Executor.evaluate_expression lettydb.Sql.Executor.condition_value
null_flag = refl

abbrev selection : SelectStatement
selection = record {
  is_select_all = false;
  columns = record { expression = Expression.identifier n; alias = [] } ∷ [];
  from_clause = record { name = 116 ∷ []; alias = [] };
  join_clause = [];
  where_clause = some condition;
  group_by = none;
  order_by = [];
}

n_selected-Selection : Selection columns selection (n ∷ []) (λ t. cells t (1 ∷ []))
n_selected-Selection = listed refl (one_more plain own_name n-NamedAt nothing)

execute_select-filtered_example :
    execute_select machine selection columns (one_null ∷ two_five ∷ [])
    ≡ ok (
      n ∷ [],
      filtered machine columns
          (some condition)
          condition-WellTyped
          (λ t. cells t (1 ∷ []))
          (one_null ∷ two_five ∷ []),
    )
execute_select-filtered_example =
    Reference.execute_select-filtered machine ltb_asym columns selection condition-WellTyped
      (one_null ∷ two_five ∷ []) n_selected-Selection
      ((inr tt, (inl (refl, refl), tt)), ((inr tt, (inr tt, tt)), tt))

-- INSERT INTO t (n, id) VALUES (5, 2)
abbrev insertion : InsertStatement
insertion = record {
  table_name = 116 ∷ [];
  column_names = n ∷ id ∷ [];
  values = (Literal.integer (pos 5) ∷ Literal.integer (pos 2) ∷ []) ∷ [];
}

insert_tuples-RowsOf_example :
    RowsOf machine columns insertion.column_names insertion.values (two_five ∷ [])
unfolding program
insert_tuples-RowsOf_example =
    Insert.insert_tuples-RowsOf machine columns insertion (two_five ∷ []) refl

-- 2 ^ 31 is cut to -2 ^ 31.
wrapped_literal :
    insert_tuples machine
      (record {
        table_name = 116 ∷ [];
        column_names = [];
        values = (Literal.integer (pos (2 ^ 31)) ∷ Literal.null_value ∷ []) ∷ [];
      })
      columns
    ≡ ok ((Value.integer (negsuc (2 ^ 31 - 1)) ∷ Value.null_value ∷ []) ∷ [])
unfolding program
wrapped_literal = refl

abbrev definitions : List ColumnDefinition
definitions =
    record { column_name = id; data_type = TokenType.int_token; size = pos 0; nullable = false }
    ∷ record {
      column_name = n;
      data_type = TokenType.varchar_token;
      size = pos 20;
      nullable = true;
    }
    ∷ []

abbrev shapes : List (DataType × ℕ)
shapes = (DataType.integer_type, 4) ∷ (DataType.varchar_type, 20) ∷ []

definitions-AllDeclare : AllDeclare definitions shapes
definitions-AllDeclare =
    Layout.one_more Declares.int
      (Layout.one_more (Declares.varchar 19 (omega arith)) Layout.nothing)

table_columns-LaidOut_example : LaidOut 0 definitions shapes (table_columns 0 definitions)
table_columns-LaidOut_example = Layout.table_columns-LaidOut 0 definitions-AllDeclare (omega arith)
