-- ===== src/Sql/Parser/Commands.antt =====
-- src/sql/parser.cpp: UPDATE, DELETE, DROP and COMPACT, and parse().
use lettydb.Common.{[], ◌∷◌, true, false}
use lettydb.Sql.Token.{TokenType}
use lettydb.Sql.Ast.{UpdateSet, Statement}
use lettydb.Sql.Parser.{
  Error, err, Parser, pure, throw, ◌>>=◌, ◌>>◌, Conversions, advance, ensure, when_match,
}
use lettydb.Sql.Parser.Expressions.{parse_logical_expression}
use lettydb.Sql.Parser.Lists.{skip_comma, comma_list, identifier_name, parse_identifier_list}
use lettydb.Sql.Parser.Select.{optional_clause, parse_select_node}
use lettydb.Sql.Parser.Insert.{parse_insert_node}
use lettydb.Sql.Parser.Create.{parse_create_node}

unfoldable pub parse_drop_node : Parser Statement
unfolding advance ensure when_match parse_identifier_list
parse_drop_node = do
  advance
  ensure TokenType.table_token
  is_guarded ←
      when_match TokenType.if_token (do advance; ensure TokenType.exists_token; pure true)
        (pure false)
  names ← parse_identifier_list
  pure (Statement.drop_table (record { if_exists = is_guarded; table_names = names }))

unfoldable pub parse_compact_node : Parser Statement
unfolding ensure identifier_name
parse_compact_node = do
  ensure TokenType.table_token
  name ← identifier_name
  pure (Statement.compact (record { table_name = name }))

module _ (lib : Conversions) where
  unfoldable pub update_set : Parser UpdateSet
  unfolding identifier_name ensure parse_logical_expression
  update_set = do
    name ← identifier_name
    ensure TokenType.eq_token
    e ← parse_logical_expression lib
    pure (record { column = name; value = e })

  unfoldable pub parse_update_node : Parser Statement
  unfolding ensure identifier_name comma_list skip_comma update_set optional_clause
  parse_update_node = do
    ensure TokenType.update_token
    name ← identifier_name
    ensure TokenType.set_token
    sets ← comma_list skip_comma update_set
    clause ← optional_clause lib TokenType.where_token
    pure (Statement.update (record { table_name = name; updates = sets; where_clause = clause }))

  unfoldable pub parse_delete_node : Parser Statement
  unfolding ensure identifier_name optional_clause
  parse_delete_node = do
    ensure TokenType.delete_token
    ensure TokenType.from_token
    name ← identifier_name
    clause ← optional_clause lib TokenType.where_token
    pure (Statement.delete (record { table_name = name; where_clause = clause }))

  -- The switch of `parse`.
  unfoldable pub statement_at : TokenType → Parser Statement
  unfolding parse_select_node parse_insert_node parse_delete_node parse_update_node parse_drop_node
      parse_create_node advance parse_compact_node
  statement_at TokenType.select_token = parse_select_node lib
  statement_at TokenType.insert_token = parse_insert_node lib
  statement_at TokenType.delete_token = parse_delete_node
  statement_at TokenType.update_token = parse_update_node
  statement_at TokenType.drop_token = parse_drop_node
  statement_at TokenType.create_token = parse_create_node lib
  statement_at TokenType.compact_token = do advance; parse_compact_node
  statement_at kind = throw Error.unsupported_statement

  unfoldable pub parse : Parser Statement
  unfolding statement_at
  parse [] = err Error.past_end
  parse (t ∷ rest) = statement_at t.kind (t ∷ rest)
