-- ===== src/Sql/Parser/Create.antt =====
-- src/sql/parser.cpp: CREATE TABLE and CREATE INDEX.
use lettydb.Common.{ℕ, ℤ, pos, ◌++◌, List, [], ◌∷◌, Bool, true, false, Option, none, some}
use lettydb.Sql.Token.{TokenType}
use lettydb.Sql.Ast.{ColumnDefinition, Statement}
use lettydb.Sql.Parser.{
  Error, err, Parser, pure, throw, ◌>>=◌, ◌>>◌, Conversions, advance, ensure, when_match, converted,
}
use lettydb.Sql.Parser.Lists.{
  skip_comma, comma_list, identifier_name, parse_identifier_list, present, gathered,
}

-- NOT NULL: what `nullable` becomes.
unfoldable pub nullable_flag : Parser Bool
unfolding when_match advance ensure
nullable_flag =
    when_match TokenType.not_token (do advance; ensure TokenType.null_literal; pure false)
      (pure true)

-- PRIMARY KEY behind the column `name`.
unfoldable pub column_key : List ℕ → Parser (List (List ℕ))
unfolding when_match advance ensure
column_key name =
    when_match TokenType.primary_token (do advance; ensure TokenType.key_token; pure (name ∷ []))
      (pure [])

-- One name of PRIMARY KEY (…), if there is one.
unfoldable pub key_column : Parser (Option (List ℕ))
unfolding when_match advance
key_column = when_match TokenType.identifier (do t ← advance; pure (some t.text)) (pure none)

unfoldable pub primary_key : Parser (List (List ℕ))
unfolding when_match advance ensure comma_list skip_comma key_column present
primary_key =
    when_match TokenType.primary_token
      (do
        advance
        ensure TokenType.key_token
        ensure TokenType.lparen_token
        names ← comma_list skip_comma key_column
        ensure TokenType.rparen_token
        pure (present names))
      (pure [])

unfoldable pub parse_create_index_node : Parser Statement
unfolding ensure identifier_name parse_identifier_list
parse_create_index_node = do
  ensure TokenType.index_token
  index ← identifier_name
  ensure TokenType.on_token
  table ← identifier_name
  ensure TokenType.lparen_token
  names ← parse_identifier_list
  ensure TokenType.rparen_token
  pure (Statement.create_index (record { index_name = index; table_name = table; columns = names }))

module _ (lib : Conversions) where
  -- The size after VARCHAR, 0 without one.
  unfoldable pub varchar_size : Parser ℤ
  unfolding when_match advance ensure converted
  varchar_size =
      when_match TokenType.lparen_token
        (do
          advance
          t ← ensure TokenType.int_literal
          n ← converted (lib.stoi t.text)
          ensure TokenType.rparen_token
          pure n)
        (pure (pos 0))

  -- The chain of tests on the type of a column, with the token that they read taken.
  unfoldable pub column_type_at : TokenType → Parser (TokenType × ℤ)
  unfolding varchar_size
  column_type_at TokenType.int_token = pure (TokenType.int_token, pos 0)
  column_type_at TokenType.bool_token = pure (TokenType.bool_token, pos 0)
  column_type_at TokenType.float_token = pure (TokenType.float_token, pos 0)
  column_type_at TokenType.date_token = pure (TokenType.date_token, pos 0)
  column_type_at TokenType.timestamp_token = pure (TokenType.timestamp_token, pos 0)
  column_type_at TokenType.varchar_token = do n ← varchar_size; pure (TokenType.varchar_token, n)
  column_type_at kind = throw Error.parse_error

  unfoldable pub column_type : Parser (TokenType × ℤ)
  unfolding column_type_at
  column_type [] = err Error.past_end
  column_type (t ∷ rest) = column_type_at t.kind rest

  unfoldable pub column_definition : Parser (List ColumnDefinition × List (List ℕ))
  unfolding when_match identifier_name column_type nullable_flag column_key
  column_definition =
      when_match TokenType.identifier
        (do
          name ← identifier_name
          (kind, n) ← column_type
          can_be_null ← nullable_flag
          keys ← column_key name
          pure (
            record { column_name = name; data_type = kind; size = n; nullable = can_be_null } ∷ [],
            keys,
          ))
        (pure ([], []))

  -- A round of the loop of `parse_create_table_node`.
  unfoldable pub table_item : Parser (List ColumnDefinition × List (List ℕ))
  unfolding column_definition primary_key
  table_item = do
    (columns, keys) ← column_definition
    more_keys ← primary_key
    pure (columns, keys ++ more_keys)

  unfoldable pub parse_create_table_node : Parser Statement
  unfolding ensure identifier_name comma_list skip_comma table_item gathered
  parse_create_table_node = do
    ensure TokenType.table_token
    name ← identifier_name
    ensure TokenType.lparen_token
    items ← comma_list skip_comma table_item
    ensure TokenType.rparen_token
    let (cs, keys) = gathered items
    pure (
        Statement.create_table
          (record { columns = cs; table_name = name; primary_key_columns = keys }))

  unfoldable pub parse_create_node : Parser Statement
  unfolding ensure when_match parse_create_table_node parse_create_index_node
  parse_create_node = do
    ensure TokenType.create_token
    when_match TokenType.table_token parse_create_table_node
        (when_match TokenType.index_token parse_create_index_node (throw Error.parse_error))
