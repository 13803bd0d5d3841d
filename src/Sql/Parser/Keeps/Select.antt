-- ===== src/Sql/Parser/Keeps/Select.antt =====
-- src/sql/parser.cpp: the parts of SELECT and the lists keep what their callers rely on.
use lettydb.Common.{zero, suc, ◌<◌, false, ◌≡◌, refl, List, [], ◌∷◌, some, none, arith, length, ℕ}
use lettydb.Sql.Token.{TokenType, Token}
use lettydb.Sql.Token.Kinds.{kind_is}
use lettydb.Sql.Lexer.{is_eof}
use lettydb.Sql.Ast.{Expression}
use lettydb.Sql.Parser.{Error, err, bind, match_kind, Conversions, peek, advance}
use lettydb.Sql.Parser.Expressions.{qualified_name, parse_logical_expression}
use lettydb.Sql.Parser.Lists.{skip_comma_peek, identifier_name, parse_identifier_list}
use lettydb.Sql.Parser.Select.{
  extract_column, select_column, parse_columns_collection, bare_alias, parse_from_table_ref,
  optional_clause, expression_loop, parse_expression_list, parse_group_by_clause, parse_join,
  parse_group_by,
}
use lettydb.Sql.Parser.Keeps.{
  returns, throws, Post-bind, Post-if, weaken, Laws, kind_not_eof, Keeps, KeepsAt,
  skip_comma_peek-Skips, pure-Keeps, bind-Keeps, ensure-Keeps, when_match-Keeps,
  skip_comma_peek-Keeps, comma_list-Keeps,
}
use lettydb.Sql.Parser.Sound.Levels.{parse_logical_expression-Reads, left_shorter}

module _ {E : Error → Type 0} {I : List Token → Type 0} (laws : Laws E I) where
  pub identifier_name-Keeps : Keeps laws identifier_name
  unfolding identifier_name is_eof
  identifier_name-Keeps =
      bind-Keeps laws (ensure-Keeps laws TokenType.identifier refl) λ t. pure-Keeps laws t.text

  pub parse_identifier_list-Keeps : Keeps laws parse_identifier_list
  unfolding parse_identifier_list
  parse_identifier_list-Keeps =
      comma_list-Keeps laws skip_comma_peek identifier_name skip_comma_peek-Skips
        (skip_comma_peek-Keeps laws) identifier_name-Keeps

  qualified_name-Keeps : (name : List ℕ) → Keeps laws (qualified_name name)
  unfolding qualified_name is_eof
  qualified_name-Keeps name =
      when_match-Keeps laws TokenType.dot_token refl
        (λ _. bind-Keeps laws (ensure-Keeps laws TokenType.identifier refl) λ t. pure-Keeps laws _)
        (pure-Keeps laws (Expression.identifier name))

  pub extract_column-Keeps : Keeps laws extract_column
  unfolding extract_column peek is_eof
  extract_column-Keeps =
      when_match-Keeps laws TokenType.identifier refl (λ t. qualified_name-Keeps t.text) peeked
    where
      peeked : Keeps laws {A = Expression} (λ ts. bind (peek ts) λ t. err Error.parse_error)
      peeked [] i = throws (laws.past_end_allowed i)
      peeked (t ∷ ts) i = throws laws.parse_error_allowed

  select_column-Keeps : Keeps laws select_column
  unfolding select_column is_eof
  select_column-Keeps = bind-Keeps laws extract_column-Keeps λ e.
      bind-Keeps laws
        (when_match-Keeps laws TokenType.as_token refl (λ _. identifier_name-Keeps)
          (pure-Keeps laws []))
        λ name. pure-Keeps laws _

  pub parse_columns_collection-Keeps : Keeps laws parse_columns_collection
  unfolding parse_columns_collection
  parse_columns_collection-Keeps =
      comma_list-Keeps laws skip_comma_peek select_column skip_comma_peek-Skips
        (skip_comma_peek-Keeps laws) select_column-Keeps

  bare_alias-Keeps : Keeps laws bare_alias
  unfolding bare_alias is_eof
  bare_alias-Keeps [] i = throws (laws.past_end_allowed i)
  bare_alias-Keeps (t ∷ rest) i =
      Post-if (kind_is t.kind TokenType.identifier)
        (λ h.
          returns
            (laws.step t rest (kind_not_eof t.kind TokenType.identifier h refl) i, omega arith))
        (λ _. returns (i, omega arith))

  pub parse_from_table_ref-Keeps : Keeps laws parse_from_table_ref
  unfolding parse_from_table_ref is_eof
  parse_from_table_ref-Keeps = bind-Keeps laws identifier_name-Keeps λ table.
      bind-Keeps laws
        (when_match-Keeps laws TokenType.as_token refl (λ _. identifier_name-Keeps)
          bare_alias-Keeps)
        λ name. pure-Keeps laws _

  module _ (lib : Conversions) where
    pub parse_logical_expression-Keeps : Keeps laws (parse_logical_expression lib)
    parse_logical_expression-Keeps ts i =
        weaken (λ (e, rest) (used, p, g, j). (j, left_shorter used rest p))
          (parse_logical_expression-Reads laws lib ts i)

    pub optional_clause-Keeps :
        (kind : TokenType) → is_eof kind ≡ false → Keeps laws (optional_clause lib kind)
    unfolding optional_clause
    optional_clause-Keeps kind n =
        when_match-Keeps laws kind n
          (λ _. bind-Keeps laws parse_logical_expression-Keeps λ e. pure-Keeps laws (some e))
          (pure-Keeps laws none)

    -- Each round takes a comma.
    expression_loop-KeepsAt :
        (f : ℕ) (ts : List Token) → length ts < f → KeepsAt laws (expression_loop lib f) ts
    unfolding expression_loop match_kind advance is_eof
    expression_loop-KeepsAt zero ts l i = absurd (omega arith)
    expression_loop-KeepsAt (suc f) [] l i = returns (i, omega arith)
    expression_loop-KeepsAt (suc f) (t ∷ ts) l i =
        Post-if (kind_is t.kind TokenType.comma_token)
          (λ h.
            Post-bind
              (parse_logical_expression-Keeps ts
                (laws.step t ts (kind_not_eof t.kind TokenType.comma_token h refl) i))
              λ (e, ts₁) (i₁, l₁).
                Post-bind (expression_loop-KeepsAt f ts₁ (omega (arith, l, l₁)) i₁)
                  λ (es, rest) (j, l₂). returns (j, omega (arith, l₁, l₂)))
          (λ _. returns (i, omega arith))

    parse_group_by_clause-Keeps : Keeps laws (parse_group_by_clause lib)
    unfolding parse_group_by_clause parse_expression_list is_eof
    parse_group_by_clause-Keeps =
        bind-Keeps laws
          (bind-Keeps laws parse_logical_expression-Keeps λ e.
            bind-Keeps laws (λ ts. expression_loop-KeepsAt (suc (length ts)) ts (omega arith))
              λ es. pure-Keeps laws (e ∷ es))
          λ es.
            bind-Keeps laws (optional_clause-Keeps TokenType.having_token refl)
              λ having. pure-Keeps laws _

    pub parse_join-Keeps : Keeps laws (parse_join lib)
    unfolding parse_join is_eof
    parse_join-Keeps =
        when_match-Keeps laws TokenType.join_token refl
          (λ _. bind-Keeps laws parse_from_table_ref-Keeps λ joined.
            bind-Keeps laws (ensure-Keeps laws TokenType.on_token refl)
              λ _. bind-Keeps laws parse_logical_expression-Keeps λ e. pure-Keeps laws _)
          (pure-Keeps laws [])

    pub parse_group_by-Keeps : Keeps laws (parse_group_by lib)
    unfolding parse_group_by is_eof
    parse_group_by-Keeps =
        when_match-Keeps laws TokenType.group_token refl
          (λ _. bind-Keeps laws (ensure-Keeps laws TokenType.by_token refl) λ _.
            bind-Keeps laws parse_group_by_clause-Keeps λ clause. pure-Keeps laws (some clause))
          (pure-Keeps laws none)
