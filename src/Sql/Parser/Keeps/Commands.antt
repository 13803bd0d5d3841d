-- ===== src/Sql/Parser/Keeps/Commands.antt =====
-- src/sql/parser.cpp: the statements keep what a run relies on.
use lettydb.Common.{◌≡◌, refl, List, [], ◌∷◌, Bool, true, false, some, none, arith, ℕ, pos}
use lettydb.Sql.Token.{TokenType, Token}
use lettydb.Sql.Lexer.{is_eof}
use lettydb.Sql.Ast.{SelectColumn, Statement}
use lettydb.Sql.Parser.{Error, Parser, Conversions, advance, ensure, ◌>>=◌}
use lettydb.Sql.Parser.Expressions.{negated}
use lettydb.Sql.Parser.Lists.{skip_comma, identifier_name, present}
use lettydb.Sql.Parser.Select.{parse_select_node}
use lettydb.Sql.Parser.Insert.{
  row_value_at, row_value, parse_value_list, insert_columns, insert_rows, parse_insert_node,
}
use lettydb.Sql.Parser.Create.{
  varchar_size, column_type_at, column_type, nullable_flag, column_key, column_definition,
  key_column, primary_key, table_item, parse_create_table_node, parse_create_index_node,
  parse_create_node,
}
use lettydb.Sql.Parser.Commands.{
  update_set, parse_update_node, parse_delete_node, parse_drop_node, parse_compact_node,
}
use lettydb.Sql.Parser.Keeps.{
  returns, throws, weaken, Laws, Keeps, KeepsAt, skip_comma-Skips, pure-Keeps, parse_error-Keeps,
  bind-Keeps, converted-Keeps, ensure-Keeps, when_match-Keeps, guard-Keeps, skip_comma-Keeps,
  comma_list-Keeps,
}
use lettydb.Sql.Parser.Keeps.Select.{
  identifier_name-Keeps, parse_identifier_list-Keeps, parse_columns_collection-Keeps,
  parse_from_table_ref-Keeps, parse_logical_expression-Keeps, optional_clause-Keeps,
  parse_join-Keeps, parse_group_by-Keeps,
}
use lettydb.Sql.Parser.Sound.{kept, negated-Reads}
use lettydb.Sql.Parser.Sound.Levels.{left_shorter}

module _ {E : Error → Type 0} {I : List Token → Type 0} (laws : Laws E I) where
  -- `advance` on a token that is known.
  pub known-KeepsAt :
      {A : Type 0} (kind : TokenType) (f : Token → Parser A) (t : Token) (rest : List Token)
      → t.kind ≡ kind
      → is_eof kind ≡ false
      → ((u : Token) → Keeps laws (f u))
      → KeepsAt laws (advance >>= f) (t ∷ rest)
  unfolding advance
  known-KeepsAt kind f t rest e n h i =
      weaken (λ _ (j, l). (j, omega (arith, l))) (h t rest (kept laws t rest e n i))

  named :
      {A : Type 0} {f : List ℕ → Parser A}
      → ((s : List ℕ) → Keeps laws (f s))
      → Keeps laws (identifier_name >>= f)
  named h = bind-Keeps laws (identifier_name-Keeps laws) h

  expected :
      {A : Type 0} (kind : TokenType) {f : Token → Parser A}
      → is_eof kind ≡ false
      → ((t : Token) → Keeps laws (f t))
      → Keeps laws (ensure kind >>= f)
  expected kind n h = bind-Keeps laws (ensure-Keeps laws kind n) h

  -- VARCHAR(n)
  module _ (lib : Conversions) where
    varchar_size-Keeps : Keeps laws (varchar_size lib)
    unfolding varchar_size is_eof
    varchar_size-Keeps =
        when_match-Keeps laws TokenType.lparen_token refl
          (λ _. expected TokenType.int_literal refl λ t.
            bind-Keeps laws (converted-Keeps laws (lib.stoi t.text))
              λ n. expected TokenType.rparen_token refl λ _. pure-Keeps laws n)
          (pure-Keeps laws (pos 0))

    column_type_at-Keeps :
        (t : Token) (rest : List Token) (k : TokenType)
        → t.kind ≡ k
        → KeepsAt laws (λ _. column_type_at lib k rest) (t ∷ rest)
    unfolding column_type_at is_eof
    column_type_at-Keeps t rest TokenType.int_token e i =
        returns (kept laws t rest e refl i, omega arith)
    column_type_at-Keeps t rest TokenType.bool_token e i =
        returns (kept laws t rest e refl i, omega arith)
    column_type_at-Keeps t rest TokenType.float_token e i =
        returns (kept laws t rest e refl i, omega arith)
    column_type_at-Keeps t rest TokenType.date_token e i =
        returns (kept laws t rest e refl i, omega arith)
    column_type_at-Keeps t rest TokenType.timestamp_token e i =
        returns (kept laws t rest e refl i, omega arith)
    column_type_at-Keeps t rest TokenType.varchar_token e i =
        weaken (λ _ (j, l). (j, omega (arith, l)))
          (bind-Keeps laws varchar_size-Keeps (λ n. pure-Keeps laws (TokenType.varchar_token, n))
            rest (kept laws t rest e refl i))
    column_type_at-Keeps t rest kind e i = throws laws.parse_error_allowed

    column_type-Keeps : Keeps laws (column_type lib)
    unfolding column_type
    column_type-Keeps [] i = throws (laws.past_end_allowed i)
    column_type-Keeps (t ∷ rest) i = column_type_at-Keeps t rest t.kind refl i

    nullable_flag-Keeps : Keeps laws nullable_flag
    unfolding nullable_flag is_eof
    nullable_flag-Keeps =
        when_match-Keeps laws TokenType.not_token refl
          (λ _. expected TokenType.null_literal refl λ _. pure-Keeps laws false)
          (pure-Keeps laws true)

    column_key-Keeps : (name : List ℕ) → Keeps laws (column_key name)
    unfolding column_key is_eof
    column_key-Keeps name =
        when_match-Keeps laws TokenType.primary_token refl
          (λ _. expected TokenType.key_token refl λ _. pure-Keeps laws (name ∷ []))
          (pure-Keeps laws [])

    column_definition-Keeps : Keeps laws (column_definition lib)
    unfolding column_definition
    column_definition-Keeps =
        guard-Keeps laws TokenType.identifier
          (named λ name. bind-Keeps laws column_type-Keeps λ (kind, n).
            bind-Keeps laws nullable_flag-Keeps
              λ can_be_null. bind-Keeps laws (column_key-Keeps name) λ keys. pure-Keeps laws _)
          (pure-Keeps laws ([], []))

    key_column-Keeps : Keeps laws key_column
    unfolding key_column is_eof
    key_column-Keeps =
        when_match-Keeps laws TokenType.identifier refl (λ t. pure-Keeps laws (some t.text))
          (pure-Keeps laws none)

    primary_key-Keeps : Keeps laws primary_key
    unfolding primary_key is_eof
    primary_key-Keeps =
        when_match-Keeps laws TokenType.primary_token refl
          (λ _. expected TokenType.key_token refl λ _. expected TokenType.lparen_token refl λ _.
            bind-Keeps laws
              (comma_list-Keeps laws skip_comma key_column skip_comma-Skips (skip_comma-Keeps laws)
                key_column-Keeps)
              λ names. expected TokenType.rparen_token refl λ _. pure-Keeps laws (present names))
          (pure-Keeps laws [])

    table_item-Keeps : Keeps laws (table_item lib)
    unfolding table_item
    table_item-Keeps =
        bind-Keeps laws column_definition-Keeps
          λ (columns, keys). bind-Keeps laws primary_key-Keeps λ more_keys. pure-Keeps laws _

    parse_create_table_node-Keeps : Keeps laws (parse_create_table_node lib)
    unfolding parse_create_table_node is_eof
    parse_create_table_node-Keeps = expected TokenType.table_token refl λ _. named λ name.
        expected TokenType.lparen_token refl λ _.
          bind-Keeps laws
            (comma_list-Keeps laws skip_comma (table_item lib) skip_comma-Skips
              (skip_comma-Keeps laws) table_item-Keeps)
            λ items. expected TokenType.rparen_token refl λ _. pure-Keeps laws _

    parse_create_index_node-Keeps : Keeps laws parse_create_index_node
    unfolding parse_create_index_node is_eof
    parse_create_index_node-Keeps = expected TokenType.index_token refl λ _. named λ index.
        expected TokenType.on_token refl λ _. named λ table.
          expected TokenType.lparen_token refl λ _.
            bind-Keeps laws (parse_identifier_list-Keeps laws)
              λ names. expected TokenType.rparen_token refl λ _. pure-Keeps laws _

    pub parse_create_node-Keeps : Keeps laws (parse_create_node lib)
    unfolding parse_create_node is_eof
    parse_create_node-Keeps = expected TokenType.create_token refl λ _.
        guard-Keeps laws TokenType.table_token parse_create_table_node-Keeps (
          guard-Keeps laws TokenType.index_token parse_create_index_node-Keeps
            (parse_error-Keeps laws))

    update_set-Keeps : Keeps laws (update_set lib)
    unfolding update_set is_eof
    update_set-Keeps = named λ name.
        expected TokenType.eq_token refl
          λ _. bind-Keeps laws (parse_logical_expression-Keeps laws lib) λ e. pure-Keeps laws _

    pub parse_update_node-Keeps : Keeps laws (parse_update_node lib)
    unfolding parse_update_node is_eof
    parse_update_node-Keeps = expected TokenType.update_token refl λ _. named λ name.
        expected TokenType.set_token refl λ _.
          bind-Keeps laws
            (comma_list-Keeps laws skip_comma (update_set lib) skip_comma-Skips
              (skip_comma-Keeps laws) update_set-Keeps)
            λ sets.
              bind-Keeps laws (optional_clause-Keeps laws lib TokenType.where_token refl)
                λ clause. pure-Keeps laws _

    pub parse_delete_node-Keeps : Keeps laws (parse_delete_node lib)
    unfolding parse_delete_node is_eof
    parse_delete_node-Keeps = expected TokenType.delete_token refl λ _.
        expected TokenType.from_token refl λ _. named λ name.
          bind-Keeps laws (optional_clause-Keeps laws lib TokenType.where_token refl)
            λ clause. pure-Keeps laws _

    pub parse_compact_node-Keeps : Keeps laws parse_compact_node
    unfolding parse_compact_node is_eof
    parse_compact_node-Keeps =
        expected TokenType.table_token refl λ _. named λ name. pure-Keeps laws _

    pub parse_drop_node-KeepsAt :
        (t : Token) (rest : List Token)
        → t.kind ≡ TokenType.drop_token
        → KeepsAt laws parse_drop_node (t ∷ rest)
    unfolding parse_drop_node is_eof
    parse_drop_node-KeepsAt t rest e = known-KeepsAt TokenType.drop_token _ t rest e refl λ _.
        expected TokenType.table_token refl λ _.
          bind-Keeps laws
            (when_match-Keeps laws TokenType.if_token refl
              (λ _. expected TokenType.exists_token refl λ _. pure-Keeps laws true)
              (pure-Keeps laws false))
            λ is_guarded. bind-Keeps laws (parse_identifier_list-Keeps laws) λ names.
              pure-Keeps laws
                (Statement.drop_table (record { if_exists = is_guarded; table_names = names }))

    pub parse_select_node-KeepsAt :
        (t : Token) (rest : List Token)
        → t.kind ≡ TokenType.select_token
        → KeepsAt laws (parse_select_node lib) (t ∷ rest)
    unfolding parse_select_node is_eof
    parse_select_node-KeepsAt t rest e = known-KeepsAt TokenType.select_token _ t rest e refl λ _.
        bind-Keeps laws {A = Bool × List SelectColumn}
          (when_match-Keeps laws TokenType.star_token refl (λ _. pure-Keeps laws (true, []))
            (bind-Keeps laws (parse_columns_collection-Keeps laws)
              λ cs. pure-Keeps laws (false, cs)))
          λ (all, cols). expected TokenType.from_token refl λ _.
            bind-Keeps laws (parse_from_table_ref-Keeps laws) λ source.
              bind-Keeps laws (parse_join-Keeps laws lib) λ joins.
                bind-Keeps laws (optional_clause-Keeps laws lib TokenType.where_token refl)
                  λ clause. bind-Keeps laws (parse_group_by-Keeps laws lib) λ grouped.
                    pure-Keeps laws (
                      Statement.select (record {
                        is_select_all = all;
                        columns = cols;
                        from_clause = source;
                        join_clause = joins;
                        where_clause = clause;
                        group_by = grouped;
                        order_by = [];
                      }))

    -- INSERT asks that a token may be passed over whatever it is, that of the end too.
    module _ (any_step : (t : Token) (rest : List Token) → I (t ∷ rest) → I rest) where
      negated-Keeps : Keeps laws (negated lib)
      negated-Keeps ts i =
          weaken (λ (v, rest) (used, p, g, j). (j, left_shorter used rest p))
            (negated-Reads laws lib ts i)

      row_value_at-Keeps : (k : TokenType) (s : List ℕ) → Keeps laws (row_value_at lib k s)
      unfolding row_value_at
      row_value_at-Keeps TokenType.int_literal s =
          bind-Keeps laws (converted-Keeps laws (lib.stoll s)) λ v. pure-Keeps laws _
      row_value_at-Keeps TokenType.float_literal s =
          bind-Keeps laws (converted-Keeps laws (lib.stod s)) λ v. pure-Keeps laws _
      row_value_at-Keeps TokenType.date_literal s = pure-Keeps laws _
      row_value_at-Keeps TokenType.timestamp_literal s = pure-Keeps laws _
      row_value_at-Keeps TokenType.string_literal s = pure-Keeps laws _
      row_value_at-Keeps TokenType.true_token s = pure-Keeps laws _
      row_value_at-Keeps TokenType.false_token s = pure-Keeps laws _
      row_value_at-Keeps TokenType.minus_token s =
          bind-Keeps laws negated-Keeps λ v. pure-Keeps laws _
      row_value_at-Keeps TokenType.null_literal s = pure-Keeps laws _
      row_value_at-Keeps k s = pure-Keeps laws _

      row_value-Keeps : Keeps laws (row_value lib)
      unfolding row_value
      row_value-Keeps [] i = throws (laws.past_end_allowed i)
      row_value-Keeps (t ∷ rest) i =
          weaken (λ _ (j, l). (j, omega (arith, l)))
            (row_value_at-Keeps t.kind t.text rest (any_step t rest i))

      parse_value_list-Keeps : Keeps laws (parse_value_list lib)
      unfolding parse_value_list is_eof
      parse_value_list-Keeps = expected TokenType.lparen_token refl λ _.
          bind-Keeps laws
            (comma_list-Keeps laws skip_comma (row_value lib) skip_comma-Skips
              (skip_comma-Keeps laws) row_value-Keeps)
            λ vs. expected TokenType.rparen_token refl λ _. pure-Keeps laws (present vs)

      insert_columns-Keeps : Keeps laws insert_columns
      unfolding insert_columns is_eof
      insert_columns-Keeps =
          when_match-Keeps laws TokenType.lparen_token refl
            (λ _.
              bind-Keeps laws (parse_identifier_list-Keeps laws)
                λ names. expected TokenType.rparen_token refl λ _. pure-Keeps laws names)
            (guard-Keeps laws TokenType.identifier (parse_error-Keeps laws) (pure-Keeps laws []))

      insert_rows-Keeps : Keeps laws (insert_rows lib)
      unfolding insert_rows is_eof
      insert_rows-Keeps =
          when_match-Keeps laws TokenType.values_token refl
            (λ _.
              comma_list-Keeps laws skip_comma (parse_value_list lib) skip_comma-Skips
                (skip_comma-Keeps laws) parse_value_list-Keeps)
            (pure-Keeps laws [])

      pub parse_insert_node-Keeps : Keeps laws (parse_insert_node lib)
      unfolding parse_insert_node is_eof
      parse_insert_node-Keeps = expected TokenType.insert_token refl λ _.
          expected TokenType.into_token refl λ _. named λ name.
            bind-Keeps laws insert_columns-Keeps
              λ names. bind-Keeps laws insert_rows-Keeps λ rows. pure-Keeps laws _
