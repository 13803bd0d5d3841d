-- ===== src/Sql/Parser/Insert.antt =====
-- src/sql/parser.cpp: INSERT.
use lettydb.Common.{ℕ, List, [], ◌∷◌, true, false, Option, none, some}
use lettydb.Sql.Token.{TokenType}
use lettydb.Sql.Ast.{Literal, Statement}
use lettydb.Sql.Parser.{
  Error, err, Parser, pure, throw, ◌>>=◌, ◌>>◌, Conversions, advance, ensure, when_match,
  parse_date_literal, parse_timestamp_literal, converted,
}
use lettydb.Sql.Parser.Expressions.{negated}
use lettydb.Sql.Parser.Lists.{
  skip_comma, comma_list, identifier_name, parse_identifier_list, present,
}

unfoldable pub insert_columns : Parser (List (List ℕ))
unfolding when_match advance parse_identifier_list ensure
insert_columns =
    when_match TokenType.lparen_token
      (do advance; names ← parse_identifier_list; ensure TokenType.rparen_token; pure names)
      (when_match TokenType.identifier (throw Error.parse_error) (pure []))

module _ (lib : Conversions) where
  -- The switch of `parse_value_list` and the `advance` after it. A token of any other kind is
  -- passed over and adds no value.
  unfoldable pub row_value_at : TokenType → List ℕ → Parser (Option Literal)
  unfolding negated converted parse_date_literal parse_timestamp_literal
  row_value_at TokenType.int_literal text = do
    v ← converted (lib.stoll text)
    pure (some (Literal.integer v))
  row_value_at TokenType.float_literal text = do
    v ← converted (lib.stod text)
    pure (some (Literal.double v))
  row_value_at TokenType.date_literal text =
      pure (some (Literal.date (parse_date_literal lib text)))
  row_value_at TokenType.timestamp_literal text =
      pure (some (Literal.timestamp (parse_timestamp_literal lib text)))
  row_value_at TokenType.string_literal text = pure (some (Literal.text text))
  row_value_at TokenType.true_token text = pure (some (Literal.boolean true))
  row_value_at TokenType.false_token text = pure (some (Literal.boolean false))
  row_value_at TokenType.minus_token text = do v ← negated lib; pure (some v)
  row_value_at TokenType.null_literal text = pure (some Literal.null_value)
  row_value_at kind text = pure none

  unfoldable pub row_value : Parser (Option Literal)
  unfolding row_value_at
  row_value [] = err Error.past_end
  row_value (t ∷ rest) = row_value_at t.kind t.text rest

  unfoldable pub parse_value_list : Parser (List Literal)
  unfolding ensure comma_list skip_comma row_value present
  parse_value_list = do
    ensure TokenType.lparen_token
    vs ← comma_list skip_comma row_value
    ensure TokenType.rparen_token
    pure (present vs)

  unfoldable pub insert_rows : Parser (List (List Literal))
  unfolding when_match advance comma_list skip_comma parse_value_list
  insert_rows =
      when_match TokenType.values_token (do advance; comma_list skip_comma parse_value_list)
        (pure [])

  unfoldable pub parse_insert_node : Parser Statement
  unfolding ensure identifier_name insert_columns insert_rows
  parse_insert_node = do
    ensure TokenType.insert_token
    ensure TokenType.into_token
    name ← identifier_name
    names ← insert_columns
    rows ← insert_rows
    pure (Statement.insert (record { table_name = name; column_names = names; values = rows }))
