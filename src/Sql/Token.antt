-- ===== src/Sql/Token.antt =====
-- src/sql/token.h and src/sql/token_type_utils.h. Characters are their codes.
pub mod Kinds
use lettydb.Common.{ℕ, List, [], ◌∷◌}

pub data TokenType : Type 0 where
  identifier int_literal float_literal date_literal timestamp_literal : TokenType
  string_literal bool_literal null_literal select_token from_token where_token : TokenType
  insert_token into_token values_token update_token set_token delete_token : TokenType
  create_token table_token index_token drop_token int_token float_token : TokenType
  varchar_token bool_token date_token timestamp_token join_token on_token : TokenType
  group_token by_token having_token order_token asc_token desc_token if_token : TokenType
  exists_token primary_token key_token eq_token ne_token gt_token lt_token : TokenType
  gte_token lte_token plus_token minus_token and_token or_token not_token is_token : TokenType
  true_token false_token star_token comma_token dot_token lparen_token : TokenType
  rparen_token single_quote_token semicolon_token as_token limit_token : TokenType
  offset_token compact_token eof_token eof_file unknown : TokenType

pub record Token : Type 0 where
  pub kind : TokenType
  pub text : List ℕ

-- The keywords, each as the codes of its capitals, in the order of the source.
unfoldable pub keyword_map : List (List ℕ × TokenType)
keyword_map =
    (83 ∷ 69 ∷ 76 ∷ 69 ∷ 67 ∷ 84 ∷ [], TokenType.select_token)
    ∷ (70 ∷ 82 ∷ 79 ∷ 77 ∷ [], TokenType.from_token)
    ∷ (87 ∷ 72 ∷ 69 ∷ 82 ∷ 69 ∷ [], TokenType.where_token)
    ∷ (73 ∷ 78 ∷ 83 ∷ 69 ∷ 82 ∷ 84 ∷ [], TokenType.insert_token)
    ∷ (73 ∷ 78 ∷ 84 ∷ 79 ∷ [], TokenType.into_token)
    ∷ (86 ∷ 65 ∷ 76 ∷ 85 ∷ 69 ∷ 83 ∷ [], TokenType.values_token)
    ∷ (85 ∷ 80 ∷ 68 ∷ 65 ∷ 84 ∷ 69 ∷ [], TokenType.update_token)
    ∷ (83 ∷ 69 ∷ 84 ∷ [], TokenType.set_token)
    ∷ (68 ∷ 69 ∷ 76 ∷ 69 ∷ 84 ∷ 69 ∷ [], TokenType.delete_token)
    ∷ (67 ∷ 82 ∷ 69 ∷ 65 ∷ 84 ∷ 69 ∷ [], TokenType.create_token)
    ∷ (84 ∷ 65 ∷ 66 ∷ 76 ∷ 69 ∷ [], TokenType.table_token)
    ∷ (73 ∷ 78 ∷ 68 ∷ 69 ∷ 88 ∷ [], TokenType.index_token)
    ∷ (68 ∷ 82 ∷ 79 ∷ 80 ∷ [], TokenType.drop_token)
    ∷ (73 ∷ 70 ∷ [], TokenType.if_token)
    ∷ (69 ∷ 88 ∷ 73 ∷ 83 ∷ 84 ∷ 83 ∷ [], TokenType.exists_token)
    ∷ (80 ∷ 82 ∷ 73 ∷ 77 ∷ 65 ∷ 82 ∷ 89 ∷ [], TokenType.primary_token)
    ∷ (75 ∷ 69 ∷ 89 ∷ [], TokenType.key_token)
    ∷ (73 ∷ 78 ∷ 84 ∷ [], TokenType.int_token)
    ∷ (70 ∷ 76 ∷ 79 ∷ 65 ∷ 84 ∷ [], TokenType.float_token)
    ∷ (86 ∷ 65 ∷ 82 ∷ 67 ∷ 72 ∷ 65 ∷ 82 ∷ [], TokenType.varchar_token)
    ∷ (66 ∷ 79 ∷ 79 ∷ 76 ∷ [], TokenType.bool_token)
    ∷ (68 ∷ 65 ∷ 84 ∷ 69 ∷ [], TokenType.date_token)
    ∷ (84 ∷ 73 ∷ 77 ∷ 69 ∷ 83 ∷ 84 ∷ 65 ∷ 77 ∷ 80 ∷ [], TokenType.timestamp_token)
    ∷ (74 ∷ 79 ∷ 73 ∷ 78 ∷ [], TokenType.join_token)
    ∷ (79 ∷ 78 ∷ [], TokenType.on_token)
    ∷ (71 ∷ 82 ∷ 79 ∷ 85 ∷ 80 ∷ [], TokenType.group_token)
    ∷ (66 ∷ 89 ∷ [], TokenType.by_token)
    ∷ (72 ∷ 65 ∷ 86 ∷ 73 ∷ 78 ∷ 71 ∷ [], TokenType.having_token)
    ∷ (79 ∷ 82 ∷ 68 ∷ 69 ∷ 82 ∷ [], TokenType.order_token)
    ∷ (65 ∷ 83 ∷ 67 ∷ [], TokenType.asc_token)
    ∷ (68 ∷ 69 ∷ 83 ∷ 67 ∷ [], TokenType.desc_token)
    ∷ (65 ∷ 78 ∷ 68 ∷ [], TokenType.and_token)
    ∷ (79 ∷ 82 ∷ [], TokenType.or_token)
    ∷ (78 ∷ 79 ∷ 84 ∷ [], TokenType.not_token)
    ∷ (73 ∷ 83 ∷ [], TokenType.is_token)
    ∷ (78 ∷ 85 ∷ 76 ∷ 76 ∷ [], TokenType.null_literal)
    ∷ (84 ∷ 82 ∷ 85 ∷ 69 ∷ [], TokenType.true_token)
    ∷ (70 ∷ 65 ∷ 76 ∷ 83 ∷ 69 ∷ [], TokenType.false_token)
    ∷ (65 ∷ 83 ∷ [], TokenType.as_token)
    ∷ (76 ∷ 73 ∷ 77 ∷ 73 ∷ 84 ∷ [], TokenType.limit_token)
    ∷ (79 ∷ 70 ∷ 70 ∷ 83 ∷ 69 ∷ 84 ∷ [], TokenType.offset_token)
    ∷ (67 ∷ 79 ∷ 77 ∷ 80 ∷ 65 ∷ 67 ∷ 84 ∷ [], TokenType.compact_token)
    ∷ []
