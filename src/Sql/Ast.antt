-- ===== src/Sql/Ast.antt =====
-- src/sql/ast.h: the syntax trees. A unique_ptr to an IdentifierNode is its name; a pointer that
-- may be null is an Option. A double is its 64 bits.
use lettydb.Common.{ℕ, ℤ, List, Bool, Option}
use lettydb.Sql.Token.{TokenType}

pub record SqlDate : Type 0 where
  pub year : ℤ
  pub month : ℤ
  pub day : ℤ

pub record SqlTimestamp : Type 0 where
  pub year : ℤ
  pub month : ℤ
  pub day : ℤ
  pub hour : ℤ
  pub minute : ℤ
  pub second : ℤ

-- The variant of LiteralNode, std::monostate first.
pub data Literal : Type 0 where
  null_value : Literal
  integer : ℤ → Literal
  double : ℕ → Literal
  text : List ℕ → Literal
  boolean : Bool → Literal
  date : SqlDate → Literal
  timestamp : SqlTimestamp → Literal

-- ExpressionNode and the classes derived from it.
pub data Expression : Type 0 where
  literal : Literal → Expression
  identifier : List ℕ → Expression
  qualified : List ℕ → List ℕ → Expression
  binary : Expression → List ℕ → Expression → Expression
  is_null : Expression → Bool → Expression

pub record SelectColumn : Type 0 where
  pub expression : Expression
  pub alias : List ℕ

pub record TableReference : Type 0 where
  pub name : List ℕ
  pub alias : List ℕ

pub record JoinClause : Type 0 where
  pub table : TableReference
  pub on_condition : Expression

pub record OrderByClause : Type 0 where
  pub expression : Expression
  pub is_ascending : Bool

pub record GroupByClause : Type 0 where
  pub expressions : List Expression
  pub having_clause : Option Expression

pub record SelectStatement : Type 0 where
  pub is_select_all : Bool
  pub columns : List SelectColumn
  pub from_clause : TableReference
  pub join_clause : List JoinClause
  pub where_clause : Option Expression
  pub group_by : Option GroupByClause
  pub order_by : List OrderByClause

pub record DropTableStatement : Type 0 where
  pub if_exists : Bool
  pub table_names : List (List ℕ)

pub record InsertStatement : Type 0 where
  pub table_name : List ℕ
  pub column_names : List (List ℕ)
  pub values : List (List Literal)

pub record DeleteStatement : Type 0 where
  pub table_name : List ℕ
  pub where_clause : Option Expression

pub record UpdateSet : Type 0 where
  pub column : List ℕ
  pub value : Expression

pub record UpdateStatement : Type 0 where
  pub table_name : List ℕ
  pub updates : List UpdateSet
  pub where_clause : Option Expression

pub record CompactStatement : Type 0 where
  pub table_name : List ℕ

pub record ColumnDefinition : Type 0 where
  pub column_name : List ℕ
  pub data_type : TokenType
  pub size : ℤ
  pub nullable : Bool

pub record CreateTableStatement : Type 0 where
  pub columns : List ColumnDefinition
  pub table_name : List ℕ
  pub primary_key_columns : List (List ℕ)

pub record CreateIndexStatement : Type 0 where
  pub index_name : List ℕ
  pub table_name : List ℕ
  pub columns : List (List ℕ)

-- ASTNode: the statements.
pub data Statement : Type 0 where
  select : SelectStatement → Statement
  drop_table : DropTableStatement → Statement
  insert : InsertStatement → Statement
  delete : DeleteStatement → Statement
  update : UpdateStatement → Statement
  compact : CompactStatement → Statement
  create_table : CreateTableStatement → Statement
  create_index : CreateIndexStatement → Statement
