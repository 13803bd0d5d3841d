-- ===== src/Sql/Token/Kinds.antt =====
-- The tokens that the parser compares by `==`.
use lettydb.Common.{ℕ, zero, suc, List, [], ◌∷◌, ◌≡◌, refl, ap, ◌∙◌, sym, Bool, true, ◌==◌, ==_iff}
use lettydb.Sql.Token.{TokenType}

-- The place of an enumerator in TokenType.
unfoldable pub ordinal : TokenType → ℕ
ordinal TokenType.identifier = 0
ordinal TokenType.int_literal = 1
ordinal TokenType.float_literal = 2
ordinal TokenType.date_literal = 3
ordinal TokenType.timestamp_literal = 4
ordinal TokenType.string_literal = 5
ordinal TokenType.bool_literal = 6
ordinal TokenType.null_literal = 7
ordinal TokenType.select_token = 8
ordinal TokenType.from_token = 9
ordinal TokenType.where_token = 10
ordinal TokenType.insert_token = 11
ordinal TokenType.into_token = 12
ordinal TokenType.values_token = 13
ordinal TokenType.update_token = 14
ordinal TokenType.set_token = 15
ordinal TokenType.delete_token = 16
ordinal TokenType.create_token = 17
ordinal TokenType.table_token = 18
ordinal TokenType.index_token = 19
ordinal TokenType.drop_token = 20
ordinal TokenType.int_token = 21
ordinal TokenType.float_token = 22
ordinal TokenType.varchar_token = 23
ordinal TokenType.bool_token = 24
ordinal TokenType.date_token = 25
ordinal TokenType.timestamp_token = 26
ordinal TokenType.join_token = 27
ordinal TokenType.on_token = 28
ordinal TokenType.group_token = 29
ordinal TokenType.by_token = 30
ordinal TokenType.having_token = 31
ordinal TokenType.order_token = 32
ordinal TokenType.asc_token = 33
ordinal TokenType.desc_token = 34
ordinal TokenType.if_token = 35
ordinal TokenType.exists_token = 36
ordinal TokenType.primary_token = 37
ordinal TokenType.key_token = 38
ordinal TokenType.eq_token = 39
ordinal TokenType.ne_token = 40
ordinal TokenType.gt_token = 41
ordinal TokenType.lt_token = 42
ordinal TokenType.gte_token = 43
ordinal TokenType.lte_token = 44
ordinal TokenType.plus_token = 45
ordinal TokenType.minus_token = 46
ordinal TokenType.and_token = 47
ordinal TokenType.or_token = 48
ordinal TokenType.not_token = 49
ordinal TokenType.is_token = 50
ordinal TokenType.true_token = 51
ordinal TokenType.false_token = 52
ordinal TokenType.star_token = 53
ordinal TokenType.comma_token = 54
ordinal TokenType.dot_token = 55
ordinal TokenType.lparen_token = 56
ordinal TokenType.rparen_token = 57
ordinal TokenType.single_quote_token = 58
ordinal TokenType.semicolon_token = 59
ordinal TokenType.as_token = 60
ordinal TokenType.limit_token = 61
ordinal TokenType.offset_token = 62
ordinal TokenType.compact_token = 63
ordinal TokenType.eof_token = 64
ordinal TokenType.eof_file = 65
ordinal TokenType.unknown = 66

kinds : List TokenType
kinds =
    TokenType.identifier ∷ TokenType.int_literal ∷ TokenType.float_literal ∷ TokenType.date_literal
    ∷ TokenType.timestamp_literal ∷ TokenType.string_literal ∷ TokenType.bool_literal
    ∷ TokenType.null_literal ∷ TokenType.select_token ∷ TokenType.from_token ∷ TokenType.where_token
    ∷ TokenType.insert_token ∷ TokenType.into_token ∷ TokenType.values_token
    ∷ TokenType.update_token ∷ TokenType.set_token ∷ TokenType.delete_token ∷ TokenType.create_token
    ∷ TokenType.table_token ∷ TokenType.index_token ∷ TokenType.drop_token ∷ TokenType.int_token
    ∷ TokenType.float_token ∷ TokenType.varchar_token ∷ TokenType.bool_token ∷ TokenType.date_token
    ∷ TokenType.timestamp_token ∷ TokenType.join_token ∷ TokenType.on_token ∷ TokenType.group_token
    ∷ TokenType.by_token ∷ TokenType.having_token ∷ TokenType.order_token ∷ TokenType.asc_token
    ∷ TokenType.desc_token ∷ TokenType.if_token ∷ TokenType.exists_token ∷ TokenType.primary_token
    ∷ TokenType.key_token ∷ TokenType.eq_token ∷ TokenType.ne_token ∷ TokenType.gt_token
    ∷ TokenType.lt_token ∷ TokenType.gte_token ∷ TokenType.lte_token ∷ TokenType.plus_token
    ∷ TokenType.minus_token ∷ TokenType.and_token ∷ TokenType.or_token ∷ TokenType.not_token
    ∷ TokenType.is_token ∷ TokenType.true_token ∷ TokenType.false_token ∷ TokenType.star_token
    ∷ TokenType.comma_token ∷ TokenType.dot_token ∷ TokenType.lparen_token ∷ TokenType.rparen_token
    ∷ TokenType.single_quote_token ∷ TokenType.semicolon_token ∷ TokenType.as_token
    ∷ TokenType.limit_token ∷ TokenType.offset_token ∷ TokenType.compact_token ∷ TokenType.eof_token
    ∷ TokenType.eof_file ∷ TokenType.unknown ∷ []

-- The kind at a place.
kind_at : List TokenType → ℕ → TokenType
kind_at [] n = TokenType.unknown
kind_at (k ∷ ks) zero = k
kind_at (k ∷ ks) (suc n) = kind_at ks n

unfoldable pub kind_is : TokenType → TokenType → Bool
unfolding ordinal
kind_is k t = ordinal k == ordinal t

kind_at-ordinal : (k : TokenType) → kind_at kinds (ordinal k) ≡ k
unfolding ordinal kinds kind_at
kind_at-ordinal TokenType.identifier = refl
kind_at-ordinal TokenType.int_literal = refl
kind_at-ordinal TokenType.float_literal = refl
kind_at-ordinal TokenType.date_literal = refl
kind_at-ordinal TokenType.timestamp_literal = refl
kind_at-ordinal TokenType.string_literal = refl
kind_at-ordinal TokenType.bool_literal = refl
kind_at-ordinal TokenType.null_literal = refl
kind_at-ordinal TokenType.select_token = refl
kind_at-ordinal TokenType.from_token = refl
kind_at-ordinal TokenType.where_token = refl
kind_at-ordinal TokenType.insert_token = refl
kind_at-ordinal TokenType.into_token = refl
kind_at-ordinal TokenType.values_token = refl
kind_at-ordinal TokenType.update_token = refl
kind_at-ordinal TokenType.set_token = refl
kind_at-ordinal TokenType.delete_token = refl
kind_at-ordinal TokenType.create_token = refl
kind_at-ordinal TokenType.table_token = refl
kind_at-ordinal TokenType.index_token = refl
kind_at-ordinal TokenType.drop_token = refl
kind_at-ordinal TokenType.int_token = refl
kind_at-ordinal TokenType.float_token = refl
kind_at-ordinal TokenType.varchar_token = refl
kind_at-ordinal TokenType.bool_token = refl
kind_at-ordinal TokenType.date_token = refl
kind_at-ordinal TokenType.timestamp_token = refl
kind_at-ordinal TokenType.join_token = refl
kind_at-ordinal TokenType.on_token = refl
kind_at-ordinal TokenType.group_token = refl
kind_at-ordinal TokenType.by_token = refl
kind_at-ordinal TokenType.having_token = refl
kind_at-ordinal TokenType.order_token = refl
kind_at-ordinal TokenType.asc_token = refl
kind_at-ordinal TokenType.desc_token = refl
kind_at-ordinal TokenType.if_token = refl
kind_at-ordinal TokenType.exists_token = refl
kind_at-ordinal TokenType.primary_token = refl
kind_at-ordinal TokenType.key_token = refl
kind_at-ordinal TokenType.eq_token = refl
kind_at-ordinal TokenType.ne_token = refl
kind_at-ordinal TokenType.gt_token = refl
kind_at-ordinal TokenType.lt_token = refl
kind_at-ordinal TokenType.gte_token = refl
kind_at-ordinal TokenType.lte_token = refl
kind_at-ordinal TokenType.plus_token = refl
kind_at-ordinal TokenType.minus_token = refl
kind_at-ordinal TokenType.and_token = refl
kind_at-ordinal TokenType.or_token = refl
kind_at-ordinal TokenType.not_token = refl
kind_at-ordinal TokenType.is_token = refl
kind_at-ordinal TokenType.true_token = refl
kind_at-ordinal TokenType.false_token = refl
kind_at-ordinal TokenType.star_token = refl
kind_at-ordinal TokenType.comma_token = refl
kind_at-ordinal TokenType.dot_token = refl
kind_at-ordinal TokenType.lparen_token = refl
kind_at-ordinal TokenType.rparen_token = refl
kind_at-ordinal TokenType.single_quote_token = refl
kind_at-ordinal TokenType.semicolon_token = refl
kind_at-ordinal TokenType.as_token = refl
kind_at-ordinal TokenType.limit_token = refl
kind_at-ordinal TokenType.offset_token = refl
kind_at-ordinal TokenType.compact_token = refl
kind_at-ordinal TokenType.eof_token = refl
kind_at-ordinal TokenType.eof_file = refl
kind_at-ordinal TokenType.unknown = refl

pub kind_is→eq : (k t : TokenType) → kind_is k t ≡ true → k ≡ t
unfolding kind_is
kind_is→eq k t h =
    sym (kind_at-ordinal k)
    ∙ ap (kind_at kinds) ((==_iff (ordinal k) (ordinal t)).0 h)
    ∙ kind_at-ordinal t
