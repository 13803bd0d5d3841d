-- ===== src/Sql/Executor.antt =====
-- src/sql/executor.cpp: values and conditions. A DbException, an std::out_of_range and an
-- ExecutionResult::error are a Failure, without the text of its message.
pub mod Select
pub mod Results
pub mod Names
mod Tests
pub mod Rows
pub mod Where
use lettydb.Common.{
  ℕ, zero, suc, ℤ, pos, negsuc, ◌-◌, ◌%◌, ◌^◌, List, [], ◌∷◌, Bool, true, false, ◌||◌, ◌&&◌, not,
  Option, none, some, if◌then◌else◌, ltb, ◌==◌, ◌≡◌,
}
use mathlib.Core.Option.{map}
use lettydb.Sql.Token.{TokenType}
use lettydb.Sql.Lexer.{same_text}
use lettydb.Sql.Ast.{SqlDate, SqlTimestamp, Literal, Expression}
use lettydb.Sql.Parser.Expressions.{or_text, and_text}
use lettydb.Storage.Tuple.{DataType, Value, word_int, int_word}
use lettydb.Catalog.{Column}

pub data Failure : Type 0 where
  type_mismatch invalid_argument not_found out_of_range : Failure
  unknown_table unknown_column unsupported_expression unsupported_statement : Failure
  more_columns duplicate_columns no_value value_count null_in_column short_insert : Failure

-- A call that returned, or the failure that ended it.
pub data Result {ℓ} (T : Type ℓ) : Type ℓ where
  failed : Failure → Result T
  ok : T → Result T

module _ {ℓ} {A B : Type ℓ} where
  infixl 5 ◌>>=◌
  -- The rest of a method, unless the call failed.
  abbrev pub ◌>>=◌ : Result A → (A → Result B) → Result B
  failed why >>= rest = failed why
  ok value >>= rest = rest value

-- What the executor takes from the machine and the standard library: the conversion of an
-- int32_t to a double, `<` of doubles, and snprintf with the formats of dates.
pub record Machine : Type 0 where
  pub int_as_double : ℤ → ℕ
  pub double_lt : ℕ → ℕ → Bool
  pub snprintf_date : SqlDate → List ℕ
  pub snprintf_timestamp : SqlTimestamp → List ℕ

-- `<` of std::string.
unfoldable pub text_lt : List ℕ → List ℕ → Bool
text_lt [] [] = false
text_lt [] (y ∷ ys) = true
text_lt (x ∷ xs) [] = false
text_lt (x ∷ xs) (y ∷ ys) = ltb x y || ((x == y) && text_lt xs ys)

-- The three returns of `compare_values`, by the two tests before them.
unfoldable pub three_way : Bool → Bool → ℤ
three_way less greater = if less then negsuc 0 else (if greater then pos 1 else pos 0)

abbrev pub is_null_value : Value → Bool
is_null_value Value.null_value = true
is_null_value v = false

abbrev pub is_zero : ℤ → Bool
is_zero (pos zero) = true
is_zero z = false

abbrev pub is_negative : ℤ → Bool
is_negative (negsuc n) = true
is_negative z = false

unfoldable pub operator_result : List ℕ → ℤ → Result Bool
operator_result op cmp =
    if same_text op (61 ∷ [])
    then ok (is_zero cmp)
    else (if same_text op (33 ∷ 61 ∷ [])
        then ok (not (is_zero cmp))
        else (if same_text op (60 ∷ [])
            then ok (is_negative cmp)
            else (if same_text op (60 ∷ 61 ∷ [])
                then ok (is_negative cmp || is_zero cmp)
                else (if same_text op (62 ∷ [])
                    then ok (not (is_negative cmp || is_zero cmp))
                    else (if same_text op (62 ∷ 61 ∷ [])
                        then ok (not (is_negative cmp))
                        else failed Failure.invalid_argument)))))

unfoldable pub find_column_index : List Column → List ℕ → Option ℕ
find_column_index [] name = none
find_column_index (c ∷ cs) name =
    let later = map (λ i. suc i) (find_column_index cs name) in
    if same_text c.name name then some 0 else later

-- std::vector::at
unfoldable pub get_value : List Value → ℕ → Result Value
get_value [] i = failed Failure.out_of_range
get_value (v ∷ vs) zero = ok v
get_value (v ∷ vs) (suc i) = get_value vs i

unfoldable pub column_value : Option ℕ → List Value → Result Value
unfolding get_value
column_value none tuple = failed Failure.not_found
column_value (some i) tuple = get_value tuple i

unfoldable pub condition_value : Value → Result Bool
condition_value (Value.boolean b) = ok b
condition_value v = failed Failure.type_mismatch

unfoldable pub project_tuple : List Value → List ℕ → Result (List Value)
unfolding get_value
project_tuple tuple [] = ok []
project_tuple tuple (i ∷ is) =
    get_value tuple i >>= λ v. project_tuple tuple is >>= λ vs. ok (v ∷ vs)

module _ (machine : Machine) where
  unfoldable pub double_of : Value → Option ℕ
  double_of (Value.integer n) = some (machine.int_as_double n)
  double_of (Value.double d) = some d
  double_of v = none

  unfoldable pub compare_numbers : Option ℕ → Option ℕ → Result ℤ
  unfolding three_way
  compare_numbers (some x) (some y) = ok (three_way (machine.double_lt x y) (machine.double_lt y x))
  compare_numbers x y = failed Failure.type_mismatch

  unfoldable pub compare_values : Value → Value → Result ℤ
  unfolding compare_numbers double_of three_way text_lt
  compare_values (Value.text x) (Value.text y) = ok (three_way (text_lt x y) (text_lt y x))
  compare_values (Value.boolean x) (Value.boolean y) = ok (three_way (not x && y) (not y && x))
  compare_values x y = compare_numbers (double_of x) (double_of y)

  unfoldable pub apply_comparison : Value → List ℕ → Value → Result Bool
  unfolding compare_values operator_result
  apply_comparison lhs op rhs =
      if is_null_value lhs || is_null_value rhs
      then ok false
      else compare_values lhs rhs >>= operator_result op

  -- A literal as a value. An int64_t is cut to 32 bits.
  unfoldable pub literal_to_value : Literal → Value
  literal_to_value Literal.null_value = Value.null_value
  literal_to_value (Literal.integer n) = Value.integer (word_int (int_word n))
  literal_to_value (Literal.double d) = Value.double d
  literal_to_value (Literal.text s) = Value.text s
  literal_to_value (Literal.boolean b) = Value.boolean b
  literal_to_value (Literal.date d) = Value.text (machine.snprintf_date d)
  literal_to_value (Literal.timestamp t) = Value.text (machine.snprintf_timestamp t)

  unfoldable pub evaluate_expression : Expression → List Value → List Column → Result Value
  unfolding literal_to_value find_column_index column_value
  evaluate_expression (Expression.literal v) tuple columns = ok (literal_to_value v)
  evaluate_expression (Expression.identifier name) tuple columns =
      column_value (find_column_index columns name) tuple
  evaluate_expression (Expression.qualified table name) tuple columns =
      column_value (find_column_index columns name) tuple
  evaluate_expression e tuple columns = failed Failure.invalid_argument

  unfoldable pub evaluate_where_clause : Expression → List Value → List Column → Result Bool
  unfolding evaluate_expression condition_value apply_comparison
  evaluate_where_clause (Expression.binary l op r) tuple columns =
      let left = evaluate_where_clause l tuple columns in
      let right = evaluate_where_clause r tuple columns in
      if same_text op and_text
      then left >>= (λ b. if b then right else ok false)
      else (if same_text op or_text
          then left >>= (λ b. if b then ok true else right)
          else evaluate_expression l tuple columns >>= λ x.
              evaluate_expression r tuple columns >>= λ y. apply_comparison x op y)
  evaluate_where_clause (Expression.is_null e is_not) tuple columns =
      evaluate_expression e tuple columns >>= λ v.
      ok (if is_not then not (is_null_value v) else is_null_value v)
  evaluate_where_clause e tuple columns = evaluate_expression e tuple columns >>= condition_value

  unfoldable pub tuple_matches_where : Option Expression → List Value → List Column → Result Bool
  unfolding evaluate_where_clause
  tuple_matches_where none tuple columns = ok true
  tuple_matches_where (some e) tuple columns = evaluate_where_clause e tuple columns
