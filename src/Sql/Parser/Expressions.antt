-- ===== src/Sql/Parser/Expressions.antt =====
-- src/sql/parser.cpp: the expressions, by recursive descent. A call takes a unit of fuel.
use lettydb.Common.{
  ℕ, zero, suc, ◌+◌, ◌*◌, ℤ, pos, negsuc, List, [], ◌∷◌, Bool, true, false, ◌||◌, if◌then◌else◌,
  length,
}
use lettydb.Sql.Token.{TokenType, Token}
use lettydb.Sql.Token.Kinds.{kind_is}
use lettydb.Sql.Ast.{Literal, Expression}
use lettydb.Sql.Parser.{
  Error, Result, ok, err, Parser, pure, throw, ◌>>=◌, ◌>>◌, run, Conversions, advance, match_kind,
  ensure, when_match, parse_date_literal, parse_timestamp_literal, converted,
}

abbrev pub or_text : List ℕ
or_text = 79 ∷ 82 ∷ []

abbrev pub and_text : List ℕ
and_text = 65 ∷ 78 ∷ 68 ∷ []

abbrev pub negate : ℤ → ℤ
negate (pos zero) = pos 0
negate (pos (suc n)) = negsuc n
negate (negsuc n) = pos (suc n)

unfoldable pub is_comparison : TokenType → Bool
unfolding kind_is
is_comparison k =
    kind_is k TokenType.eq_token
    || kind_is k TokenType.ne_token
    || kind_is k TokenType.lt_token
    || kind_is k TokenType.lte_token
    || kind_is k TokenType.gt_token
    || kind_is k TokenType.gte_token

-- An identifier, or two with a dot between them.
unfoldable pub qualified_name : List ℕ → Parser Expression
unfolding when_match advance ensure
qualified_name name =
    when_match TokenType.dot_token
      (do
        advance
        member ← ensure TokenType.identifier
        pure (Expression.qualified name member.text))
      (pure (Expression.identifier name))

-- The test of `IS [NOT] NULL` after IS: whether NOT stands there.
unfoldable pub null_test : Parser Bool
unfolding when_match advance ensure
null_test = do
  is_not ← when_match TokenType.not_token (do advance; pure true) (pure false)
  ensure TokenType.null_literal
  pure is_not

module _ (lib : Conversions) where
  -- A number after a minus sign.
  unfoldable pub negated : List Token → Result (Literal × List Token)
  unfolding converted
  negated [] = err Error.parse_error
  negated (t ∷ rest) =
      let whole = run rest do v ← converted (lib.stoll t.text); pure (Literal.integer (negate v))
      in let fractional =
          run rest do v ← converted (lib.stod t.text); pure (Literal.double (lib.negate_double v))
        in if kind_is t.kind TokenType.int_literal
          then whole
          else (if kind_is t.kind TokenType.float_literal
              then fractional
              else err Error.parse_error)

  -- The chain of tests of `parse_value_or_identifier`, with the token that they read taken.
  unfoldable pub value_at : Parser Expression → TokenType → List ℕ → Parser Expression
  unfolding negated qualified_name converted ensure parse_date_literal parse_timestamp_literal
  value_at nested TokenType.int_literal text = do
    v ← converted (lib.stoll text)
    pure (Expression.literal (Literal.integer v))
  value_at nested TokenType.float_literal text = do
    v ← converted (lib.stod text)
    pure (Expression.literal (Literal.double v))
  value_at nested TokenType.minus_token text = do v ← negated; pure (Expression.literal v)
  value_at nested TokenType.null_literal text = pure (Expression.literal Literal.null_value)
  value_at nested TokenType.date_literal text =
      pure (Expression.literal (Literal.date (parse_date_literal lib text)))
  value_at nested TokenType.timestamp_literal text =
      pure (Expression.literal (Literal.timestamp (parse_timestamp_literal lib text)))
  value_at nested TokenType.string_literal text = pure (Expression.literal (Literal.text text))
  value_at nested TokenType.true_token text = pure (Expression.literal (Literal.boolean true))
  value_at nested TokenType.false_token text = pure (Expression.literal (Literal.boolean false))
  value_at nested TokenType.identifier text = qualified_name text
  value_at nested TokenType.lparen_token text = do e ← nested; ensure TokenType.rparen_token; pure e
  value_at nested kind text = throw Error.parse_error

  unfoldable mutual
    pub parse_logical : ℕ → Parser Expression
    parse_logical zero ts = err Error.out_of_fuel
    parse_logical (suc f) ts = run ts do left ← parse_and_expression f; or_loop f left

    pub or_loop : ℕ → Expression → Parser Expression
    or_loop zero left ts = err Error.out_of_fuel
    or_loop (suc f) left ts =
        let more = run ts do
          advance
          right ← parse_and_expression f
          or_loop f (Expression.binary left or_text right)
        in if match_kind TokenType.or_token ts then more else ok (left, ts)

    pub parse_and_expression : ℕ → Parser Expression
    parse_and_expression zero ts = err Error.out_of_fuel
    parse_and_expression (suc f) ts =
        run ts do left ← parse_relational_expression f; and_loop f left

    pub and_loop : ℕ → Expression → Parser Expression
    and_loop zero left ts = err Error.out_of_fuel
    and_loop (suc f) left ts =
        let more = run ts do
          advance
          right ← parse_relational_expression f
          and_loop f (Expression.binary left and_text right)
        in if match_kind TokenType.and_token ts then more else ok (left, ts)

    pub parse_relational_expression : ℕ → Parser Expression
    parse_relational_expression zero ts = err Error.out_of_fuel
    parse_relational_expression (suc f) ts =
        run ts do left ← parse_value_or_identifier f; relational_loop f left

    pub relational_loop : ℕ → Expression → Parser Expression
    relational_loop zero left ts = err Error.out_of_fuel
    relational_loop (suc f) left [] = err Error.past_end
    relational_loop (suc f) left (t ∷ rest) =
        let compared = run rest do
          right ← parse_value_or_identifier f
          relational_loop f (Expression.binary left t.text right)
        in let tested =
            run rest do is_not ← null_test; relational_loop f (Expression.is_null left is_not)
          in if is_comparison t.kind
            then compared
            else (if kind_is t.kind TokenType.is_token then tested else ok (left, t ∷ rest))

    pub parse_value_or_identifier : ℕ → Parser Expression
    parse_value_or_identifier zero ts = err Error.out_of_fuel
    parse_value_or_identifier (suc f) [] = err Error.past_end
    parse_value_or_identifier (suc f) (t ∷ rest) = value_at (parse_logical f) t.kind t.text rest

  -- A nested expression has fewer tokens, and at most four calls stand between two of them.
  unfoldable pub parse_logical_expression : Parser Expression
  parse_logical_expression ts = parse_logical (4 * length ts + 4) ts
