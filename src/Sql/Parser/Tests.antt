-- ===== src/Sql/Parser/Tests.antt =====
-- Statements, and the theorems of src/sql/parser.cpp at them.
use lettydb.Common.{
  ℕ, pos, ◌+◌, ◌*◌, ◌-◌, ◌≡◌, ◌≢◌, refl, List, [], ◌∷◌, ◌++◌, true, some, inl, inr,
}
use lettydb.Sql.Token.{TokenType, Token}
use lettydb.Sql.Lexer.{tokenize}
use lettydb.Sql.Lexer.Progress.{Complete}
use lettydb.Sql.Ast.{Literal, Expression, Statement}
use lettydb.Sql.Parser.{Error, Result, ok, err, Conversions}
use lettydb.Sql.Parser.Expressions.{or_text, and_text, parse_logical_expression}
use lettydb.Sql.Parser.Commands.{parse}
use lettydb.Sql.Parser.Grammar.{
  Constant, Primary, Tests, Relation, Ands, Conjunction, Ors, Disjunction,
}
use lettydb.Sql.Parser.Keeps.{Post}
use lettydb.Sql.Parser.Printer
use lettydb.Sql.Parser.Printer.{print, sign}
use lettydb.Sql.Parser.Safety
use lettydb.Sql.Parser.Safety.{IsThrown}
use lettydb.Sql.Parser.Accepts.Levels

abbrev digits_value : ℕ → List ℕ → ℕ
digits_value n [] = n
digits_value n (c ∷ cs) = digits_value (n * 10 + (c - 48)) cs

-- Decimal numbers; doubles as their digits, dates as zeros.
abbrev pub decimal : Conversions
decimal = record {
  stoll = λ s. some (pos (digits_value 0 s));
  stoi = λ s. some (pos (digits_value 0 s));
  stod = λ s. some (digits_value 0 s);
  negate_double = λ d. 2 * d;
  sscanf_date = λ s. (pos 0, pos 0, pos 0);
  sscanf_timestamp = λ s. (pos 0, pos 0, pos 0, pos 0, pos 0, pos 0);
}

-- "DELETE FROM t WHERE a <= 42", without the quotes.
abbrev deletion : List ℕ
deletion =
    68 ∷ 69 ∷ 76 ∷ 69 ∷ 84 ∷ 69 ∷ 32 ∷ 70 ∷ 82 ∷ 79 ∷ 77 ∷ 32 ∷ 116 ∷ 32 ∷ 87 ∷ 72 ∷ 69 ∷ 82 ∷ 69
    ∷ 32 ∷ 97 ∷ 32 ∷ 60 ∷ 61 ∷ 32 ∷ 52 ∷ 50 ∷ []

abbrev eof : Token
eof = sign TokenType.eof_file []

abbrev deletion_tokens : List Token
deletion_tokens =
    sign TokenType.delete_token (68 ∷ 69 ∷ 76 ∷ 69 ∷ 84 ∷ 69 ∷ [])
    ∷ sign TokenType.from_token (70 ∷ 82 ∷ 79 ∷ 77 ∷ [])
    ∷ sign TokenType.identifier (116 ∷ [])
    ∷ sign TokenType.where_token (87 ∷ 72 ∷ 69 ∷ 82 ∷ 69 ∷ [])
    ∷ sign TokenType.identifier (97 ∷ [])
    ∷ sign TokenType.lte_token (60 ∷ 61 ∷ [])
    ∷ sign TokenType.int_literal (52 ∷ 50 ∷ [])
    ∷ eof
    ∷ []

program : Unit {0}
unfolding lettydb.Sql.Lexer.tokenize lettydb.Sql.Lexer.single_kind lettydb.Sql.Lexer.find_keyword
    lettydb.Sql.Lexer.keyword_or_identifier lettydb.Sql.Token.keyword_map
    lettydb.Sql.Parser.Commands.parse lettydb.Sql.Token.Kinds.ordinal
    lettydb.Sql.Lexer.tokenize_fuel lettydb.Sql.Lexer.is_eof lettydb.Sql.Lexer.next_token
    lettydb.Sql.Lexer.token_at lettydb.Sql.Lexer.make_key_or_identifier lettydb.Sql.Lexer.take_while
    lettydb.Sql.Lexer.make_operator lettydb.Sql.Lexer.with_equals lettydb.Sql.Lexer.make_numbers
    lettydb.Sql.Lexer.make_fraction lettydb.Sql.Parser.Expressions.parse_logical
    lettydb.Sql.Parser.Expressions.value_at lettydb.Sql.Parser.Expressions.is_comparison
    lettydb.Sql.Parser.Accepts.extends_expression lettydb.Sql.Parser.Printer.operator_kind
program = tt

deletion-tokens : tokenize deletion ≡ some deletion_tokens
unfolding program
deletion-tokens = refl

parse-IsThrown_example : Post IsThrown (λ r. Complete r.1) (parse decimal deletion_tokens)
unfolding program
parse-IsThrown_example = Safety.parse-IsThrown decimal deletion deletion_tokens deletion-tokens refl

parse-ne-out_of_fuel_example : parse decimal deletion_tokens ≢ err Error.out_of_fuel
parse-ne-out_of_fuel_example = Safety.parse-ne-out_of_fuel decimal deletion_tokens

-- INSERT INTO t VALUES ( : the token of the end is passed over, and peek() reads past the vector.
unclosed_row :
    parse decimal (
      sign TokenType.insert_token []
      ∷ sign TokenType.into_token []
      ∷ sign TokenType.identifier (116 ∷ [])
      ∷ sign TokenType.values_token []
      ∷ sign TokenType.lparen_token []
      ∷ eof
      ∷ [])
    ≡ err Error.past_end
unfolding program
unclosed_row = refl

-- INSERT INTO t VALUES (x) : the identifier adds no value.
skipped_value :
    parse decimal (
      sign TokenType.insert_token []
      ∷ sign TokenType.into_token []
      ∷ sign TokenType.identifier (116 ∷ [])
      ∷ sign TokenType.values_token []
      ∷ sign TokenType.lparen_token []
      ∷ sign TokenType.identifier (120 ∷ [])
      ∷ sign TokenType.rparen_token []
      ∷ eof
      ∷ [])
    ≡ ok (
      Statement.insert (record { table_name = 116 ∷ []; column_names = []; values = [] ∷ [] }),
      eof ∷ [],
    )
unfolding program
skipped_value = refl

-- a OR b = 1 AND c
abbrev mixed : List Token
mixed =
    sign TokenType.identifier (97 ∷ [])
    ∷ sign TokenType.or_token []
    ∷ sign TokenType.identifier (98 ∷ [])
    ∷ sign TokenType.eq_token (61 ∷ [])
    ∷ sign TokenType.int_literal (49 ∷ [])
    ∷ sign TokenType.and_token []
    ∷ sign TokenType.identifier (99 ∷ [])
    ∷ eof
    ∷ []

mixed_tree :
    parse_logical_expression decimal mixed
    ≡ ok (
      Expression.binary (Expression.identifier (97 ∷ [])) or_text (
          Expression.binary
            (Expression.binary
              (Expression.identifier (98 ∷ []))
              (61 ∷ [])
              (Expression.literal (Literal.integer (pos 1))))
            and_text
            (Expression.identifier (99 ∷ []))),
      eof ∷ [],
    )
unfolding program
mixed_tree = refl

parse_logical_expression_sound_example :
    Post IsThrown
      (λ r.
        (used : List Token) × (mixed ≡ used ++ r.1) × Disjunction decimal used r.0 × Complete r.1)
      (parse_logical_expression decimal mixed)
unfolding program
parse_logical_expression_sound_example =
    Safety.parse_logical_expression_sound decimal mixed
      (refl, (refl, (refl, (refl, (refl, (refl, (refl, refl)))))))

abbrev spell : Literal → List Token
spell v = sign TokenType.int_literal (49 ∷ []) ∷ []

-- (a OR (b = 1)) IS NOT NULL
abbrev tree : Expression
tree =
    Expression.is_null
      (Expression.binary (Expression.identifier (97 ∷ [])) or_text (
        Expression.binary (Expression.identifier (98 ∷ [])) (61 ∷ [])
          (Expression.literal (Literal.integer (pos 1)))))
      true

one-Constant : Constant decimal (sign TokenType.int_literal (49 ∷ [])) (Literal.integer (pos 1))
one-Constant = Constant.integer refl refl

tree-IsPrintable : Printer.IsPrintable decimal spell tree
unfolding program
tree-IsPrintable = (tt, (tt, Primary.constant one-Constant, inr (inr refl)), inl refl)

parse_logical_expression-print_example :
    parse_logical_expression decimal (print decimal spell tree ++ eof ∷ []) ≡ ok (tree, eof ∷ [])
unfolding program
parse_logical_expression-print_example =
    Printer.parse_logical_expression-print decimal spell tree (eof ∷ []) tree-IsPrintable refl

name-Disjunction :
    Disjunction decimal (sign TokenType.identifier (97 ∷ []) ∷ []) (Expression.identifier (97 ∷ []))
name-Disjunction =
    Disjunction.disjunction _ []
      (Conjunction.conjunction _ []
        (Relation.relation (sign TokenType.identifier (97 ∷ []) ∷ []) [] (Primary.name refl)
          Tests.no_test)
        Ands.no_and)
      Ors.no_or

parse_logical_expression-Disjunction_example :
    parse_logical_expression decimal ((sign TokenType.identifier (97 ∷ []) ∷ []) ++ eof ∷ [])
    ≡ ok (Expression.identifier (97 ∷ []), eof ∷ [])
unfolding program
parse_logical_expression-Disjunction_example =
    Levels.parse_logical_expression-Disjunction decimal (sign TokenType.identifier (97 ∷ []) ∷ [])
      (eof ∷ []) (Expression.identifier (97 ∷ [])) name-Disjunction refl
