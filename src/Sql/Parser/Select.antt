-- ===== src/Sql/Parser/Select.antt =====
-- src/sql/parser.cpp: SELECT, with its clauses.
use lettydb.Common.{
  ℕ, zero, suc, List, [], ◌∷◌, true, false, Option, none, some, if◌then◌else◌, length,
}
use lettydb.Sql.Token.{TokenType}
use lettydb.Sql.Token.Kinds.{kind_is}
use lettydb.Sql.Ast.{Expression, SelectColumn, TableReference, JoinClause, GroupByClause, Statement}
use lettydb.Sql.Parser.{
  Error, ok, err, Parser, pure, ◌>>=◌, ◌>>◌, run, Conversions, peek, bind, advance, match_kind,
  ensure, when_match,
}
use lettydb.Sql.Parser.Expressions.{parse_logical_expression, qualified_name}
use lettydb.Sql.Parser.Lists.{skip_comma_peek, comma_list, identifier_name}

unfoldable pub extract_column : Parser Expression
unfolding when_match advance qualified_name
extract_column =
    when_match TokenType.identifier (do t ← advance; qualified_name t.text)
      (λ ts. bind (peek ts) λ t. err Error.parse_error)

unfoldable pub select_column : Parser SelectColumn
unfolding when_match advance extract_column identifier_name
select_column = do
  e ← extract_column
  name ← when_match TokenType.as_token (do advance; identifier_name) (pure [])
  pure (record { expression = e; alias = name })

unfoldable pub parse_columns_collection : Parser (List SelectColumn)
unfolding comma_list skip_comma_peek select_column
parse_columns_collection = comma_list skip_comma_peek select_column

-- The alias of a table without AS: peek() is called at the end too.
unfoldable pub bare_alias : Parser (List ℕ)
unfolding kind_is
bare_alias [] = err Error.past_end
bare_alias (t ∷ rest) =
    if kind_is t.kind TokenType.identifier then ok (t.text, rest) else ok ([], t ∷ rest)

unfoldable pub parse_from_table_ref : Parser TableReference
unfolding when_match advance identifier_name bare_alias
parse_from_table_ref = do
  table ← identifier_name
  name ← when_match TokenType.as_token (do advance; identifier_name) bare_alias
  pure (record { name = table; alias = name })

module _ (lib : Conversions) where
  -- WHERE, HAVING: an optional clause.
  unfoldable pub optional_clause : TokenType → Parser (Option Expression)
  unfolding when_match advance parse_logical_expression
  optional_clause kind =
      when_match kind (do advance; e ← parse_logical_expression lib; pure (some e)) (pure none)

  unfoldable pub expression_loop : ℕ → Parser (List Expression)
  unfolding match_kind advance parse_logical_expression
  expression_loop zero ts = err Error.out_of_fuel
  expression_loop (suc f) ts =
      let more =
        run ts
          do advance; e ← parse_logical_expression lib; later ← expression_loop f; pure (e ∷ later)
      in if match_kind TokenType.comma_token ts then more else ok ([], ts)

  unfoldable pub parse_expression_list : Parser (List Expression)
  unfolding expression_loop
  parse_expression_list = do
    e ← parse_logical_expression lib
    later ← λ rest. expression_loop (suc (length rest)) rest
    pure (e ∷ later)

  unfoldable pub parse_group_by_clause : Parser GroupByClause
  unfolding parse_expression_list optional_clause
  parse_group_by_clause = do
    es ← parse_expression_list
    having ← optional_clause TokenType.having_token
    pure (record { expressions = es; having_clause = having })

  unfoldable pub parse_join : Parser (List JoinClause)
  unfolding when_match advance parse_from_table_ref ensure parse_logical_expression
  parse_join =
      when_match TokenType.join_token
        (do
          advance
          joined ← parse_from_table_ref
          ensure TokenType.on_token
          e ← parse_logical_expression lib
          pure (record { table = joined; on_condition = e } ∷ []))
        (pure [])

  unfoldable pub parse_group_by : Parser (Option GroupByClause)
  unfolding when_match advance ensure parse_group_by_clause
  parse_group_by =
      when_match TokenType.group_token
        (do advance; ensure TokenType.by_token; clause ← parse_group_by_clause; pure (some clause))
        (pure none)

  unfoldable pub parse_select_node : Parser Statement
  unfolding advance when_match parse_columns_collection ensure parse_from_table_ref parse_join
      optional_clause parse_group_by
  parse_select_node = do
    advance
    (all, cols) ←
        when_match TokenType.star_token (do advance; pure (true, []))
          (do cs ← parse_columns_collection; pure (false, cs))
    ensure TokenType.from_token
    source ← parse_from_table_ref
    joins ← parse_join
    clause ← optional_clause TokenType.where_token
    grouped ← parse_group_by
    pure (
        Statement.select (record {
          is_select_all = all;
          columns = cols;
          from_clause = source;
          join_clause = joins;
          where_clause = clause;
          group_by = grouped;
          order_by = [];
        }))
