-- ===== src/Sql/Executor/Where.antt =====
-- src/sql/executor.cpp: conditions against the three-valued logic of SQL, on rows and conditions
-- whose types fit the columns.
pub mod Logic
use lettydb.Common.{
  ℕ, zero, suc, ◌≡◌, ◌⊎◌, inl, inr, refl, sym, ◌∙◌, ap, List, [], ◌∷◌, Bool, true, false, ◌||◌,
  ◌&&◌, not, Option, none, some, if◌then◌else◌, arith, Bool-cases, ltb, ◌==◌,
}
use lettydb.Sql.Lexer.{same_text}
use lettydb.Sql.Ast.{Literal, Expression}
use lettydb.Sql.Parser.Expressions.{or_text, and_text}
use lettydb.Storage.Tuple.{DataType, Value}
use lettydb.Catalog.{Column}
use lettydb.Sql.Executor.Names.{NamedAt, Denotes, InInt32}
use lettydb.Sql.Executor.{
  Result, ok, failed, ◌>>=◌, Machine, text_lt, three_way, is_null_value, double_of, compare_numbers,
  compare_values, operator_result, is_zero, is_negative, apply_comparison, literal_to_value,
  find_column_index, get_value, column_value, evaluate_expression, condition_value,
  evaluate_where_clause,
}

-- The values that can be compared with each other.
pub data Kind : Type 0 where
  numeric textual truth : Kind

abbrev pub kind_of : DataType → Kind
kind_of DataType.integer_type = numeric
kind_of DataType.double_type = numeric
kind_of DataType.boolean_type = truth
kind_of k = textual

abbrev pub HasKind : Kind → Value → Type 0
HasKind numeric (Value.integer n) = Unit {0}
HasKind numeric (Value.double d) = Unit {0}
HasKind textual (Value.text s) = Unit {0}
HasKind truth (Value.boolean b) = Unit {0}
HasKind k v = ⊥

-- NULL, or a value of the kind.
abbrev pub MayHaveKind : Kind → Value → Type 0
MayHaveKind k v = (v ≡ Value.null_value) ⊎ HasKind k v

abbrev pub Fits : Column → Value → Type 0
Fits c v = ((v ≡ Value.null_value) × (c.nullable ≡ true)) ⊎ HasKind (kind_of c.data_type) v

-- A row of the table.
abbrev pub Conforms : List Column → List Value → Type 0
Conforms [] [] = Unit {0}
Conforms [] (v ∷ vs) = ⊥
Conforms (c ∷ cs) [] = ⊥
Conforms (c ∷ cs) (v ∷ vs) = Fits c v × Conforms cs vs

-- The comparison operators, and how they are written.
pub data Operator : Type 0 where
  equal unequal below at_most above at_least : Operator

abbrev pub operator_text : Operator → List ℕ
operator_text equal = 61 ∷ []
operator_text unequal = 33 ∷ 61 ∷ []
operator_text below = 60 ∷ []
operator_text at_most = 60 ∷ 61 ∷ []
operator_text above = 62 ∷ []
operator_text at_least = 62 ∷ 61 ∷ []

abbrev pub is_true : Option Bool → Bool
is_true (some b) = b
is_true none = false

-- What an operator says, by whether the left side is less and whether it is greater.
abbrev pub holds : Operator → Bool → Bool → Bool
holds equal less greater = not less && not greater
holds unequal less greater = less || greater
holds below less greater = less
holds at_most less greater = not greater
holds above less greater = greater
holds at_least less greater = not less

abbrev pub and_three : Option Bool → Option Bool → Option Bool
and_three (some false) y = some false
and_three (some true) y = y
and_three none (some false) = some false
and_three none y = none

abbrev pub or_three : Option Bool → Option Bool → Option Bool
or_three (some true) y = some true
or_three (some false) y = y
or_three none (some true) = some true
or_three none y = none

abbrev pub value_at : List Value → Option ℕ → Value
value_at vs none = Value.null_value
value_at [] (some i) = Value.null_value
value_at (v ∷ vs) (some zero) = v
value_at (v ∷ vs) (some (suc i)) = value_at vs (some i)

abbrev pub truth_of_value : Value → Option Bool
truth_of_value (Value.boolean b) = some b
truth_of_value v = none

-- The order of strings: that of the first characters that differ, a prefix first.
abbrev pub earlier : List ℕ → List ℕ → Bool
earlier xs [] = false
earlier [] (y ∷ ys) = true
earlier (x ∷ xs) (y ∷ ys) = if x == y then earlier xs ys else ltb x y

module _ (machine : Machine) where
  -- The order of the values of a kind.
  unfoldable pub less : Value → Value → Bool
  less (Value.text x) (Value.text y) = earlier x y
  less (Value.boolean x) (Value.boolean y) = not x && y
  less (Value.integer x) (Value.integer y) =
      machine.double_lt (machine.int_as_double x) (machine.int_as_double y)
  less (Value.integer x) (Value.double y) = machine.double_lt (machine.int_as_double x) y
  less (Value.double x) (Value.integer y) = machine.double_lt x (machine.int_as_double y)
  less (Value.double x) (Value.double y) = machine.double_lt x y
  less x y = false

  -- Truth values are `some true`, `some false` and, for unknown, `none`.
  abbrev pub compare_three : Operator → Value → Value → Option Bool
  compare_three op Value.null_value y = none
  compare_three op x Value.null_value = none
  compare_three op x y = some (holds op (less x y) (less y x))

module _ (machine : Machine) (columns : List Column) where
  -- What stands on a side of a comparison.
  pub data Operand : Expression → Kind → Type 0 where
    constant :
        {v : Literal} {x : Value} {k : Kind}
        → Denotes machine v x
        → MayHaveKind k x
        → Operand (Expression.literal v) k
    column :
        {name : List ℕ} {i : ℕ} {c : Column}
        → NamedAt columns name i c
        → Operand (Expression.identifier name) (kind_of c.data_type)
    member :
        {table name : List ℕ} {i : ℕ} {c : Column}
        → NamedAt columns name i c
        → Operand (Expression.qualified table name) (kind_of c.data_type)

  -- A condition whose types fit. A column alone is a condition if it is BOOLEAN and NOT NULL.
  pub data WellTyped : Expression → Type 0 where
    both :
        {l r : Expression}
        → WellTyped l
        → WellTyped r
        → WellTyped (Expression.binary l (65 ∷ 78 ∷ 68 ∷ []) r)
    either :
        {l r : Expression}
        → WellTyped l
        → WellTyped r
        → WellTyped (Expression.binary l (79 ∷ 82 ∷ []) r)
    compare :
        {l r : Expression} {k : Kind} (op : Operator)
        → Operand l k
        → Operand r k
        → WellTyped (Expression.binary l (operator_text op) r)
    null_test :
        {e : Expression} {k : Kind} {is_not : Bool}
        → Operand e k
        → WellTyped (Expression.is_null e is_not)
    constant : {b : Bool} → WellTyped (Expression.literal (Literal.boolean b))
    flag :
        {name : List ℕ} {i : ℕ} {c : Column}
        → NamedAt columns name i c
        → c.data_type ≡ DataType.boolean_type
        → c.nullable ≡ false
        → WellTyped (Expression.identifier name)
    member_flag :
        {table name : List ℕ} {i : ℕ} {c : Column}
        → NamedAt columns name i c
        → c.data_type ≡ DataType.boolean_type
        → c.nullable ≡ false
        → WellTyped (Expression.qualified table name)

  abbrev pub value_of : {e : Expression} {k : Kind} → Operand e k → List Value → Value
  value_of (Operand.constant {x = x} d h) tuple = x
  value_of (Operand.column {i = i} n) tuple = value_at tuple (some i)
  value_of (Operand.member {i = i} n) tuple = value_at tuple (some i)

  abbrev pub null_three : Bool → Value → Option Bool
  null_three is_not Value.null_value = some (not is_not)
  null_three is_not v = some is_not

  -- SQL's value of a condition.
  abbrev pub three_valued : {e : Expression} → WellTyped e → List Value → Option Bool
  three_valued (WellTyped.both l r) tuple = and_three (three_valued l tuple) (three_valued r tuple)
  three_valued (WellTyped.either l r) tuple = or_three (three_valued l tuple) (three_valued r tuple)
  three_valued (WellTyped.compare op l r) tuple =
      compare_three machine op (value_of l tuple) (value_of r tuple)
  three_valued (WellTyped.null_test {is_not = is_not} x) tuple =
      null_three is_not (value_of x tuple)
  three_valued (WellTyped.constant {b}) tuple = some b
  three_valued (WellTyped.flag {i = i} n t h) tuple = truth_of_value (value_at tuple (some i))
  three_valued (WellTyped.member_flag {i = i} n t h) tuple =
      truth_of_value (value_at tuple (some i))
