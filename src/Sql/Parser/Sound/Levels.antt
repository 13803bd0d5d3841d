-- ===== src/Sql/Parser/Sound/Levels.antt =====
-- src/sql/parser.cpp: the levels of an expression, by one induction on the fuel. A call of a level
-- needs four units for each token and some more for the calls below it.
use mathlib.Core.List.{append_assoc}
use lettydb.Common.{
  ℕ, zero, suc, ◌+◌, ◌*◌, ◌≤◌, ◌<◌, ◌≡◌, inl, inr, refl, Bool-cases, ap, List, [], ◌∷◌, ◌++◌, Bool,
  true, false, arith, length, length-append,
}
use lettydb.Sql.Token.{TokenType, Token}
use lettydb.Sql.Token.Kinds.{kind_is, kind_is→eq}
use lettydb.Sql.Lexer.{is_eof}
use lettydb.Sql.Ast.{Expression}
use lettydb.Sql.Parser.{Error, Conversions, advance, match_kind, when_match}
use lettydb.Sql.Parser.Expressions.{
  is_comparison, null_test, parse_logical, or_loop, parse_and_expression, and_loop,
  parse_relational_expression, relational_loop, parse_value_or_identifier, parse_logical_expression,
}
use lettydb.Sql.Parser.Grammar.{Primary, Tests, Relation, Ands, Conjunction, Ors, Disjunction}
use lettydb.Sql.Parser.Keeps.{returns, throws, Post-bind, Post-if, Post-map, Laws}
use lettydb.Sql.Parser.Sound.{ReadsAt, kept, ensure-Reads, value_at-Reads}

pub left_shorter :
    (us rest : List Token) {ts : List Token} → ts ≡ us ++ rest → length rest ≤ length ts
left_shorter us rest p = omega (arith, ap length p, length-append us rest)

comparison_not_eof : (k : TokenType) → is_comparison k ≡ true → is_eof k ≡ false
unfolding is_comparison is_eof kind_is lettydb.Sql.Token.Kinds.ordinal
comparison_not_eof TokenType.eof_file h = cc
comparison_not_eof k h = refl

-- The tokens of `IS [NOT] NULL` after IS.
pub data NullTest : List Token → Bool → Type 0 where
  plain : {n : Token} → n.kind ≡ TokenType.null_literal → NullTest (n ∷ []) false
  negated :
      {o n : Token}
      → o.kind ≡ TokenType.not_token
      → n.kind ≡ TokenType.null_literal
      → NullTest (o ∷ n ∷ []) true

null_test-Tests :
    (lib : Conversions) (i : Token) (us ts : List Token) (left : Expression) (is_not : Bool)
    (e : Expression)
    → i.kind ≡ TokenType.is_token
    → NullTest us is_not
    → Tests lib (Expression.is_null left is_not) ts e
    → Tests lib left (i ∷ (us ++ ts)) e
null_test-Tests lib i us ts left is_not e k (NullTest.plain h) g = Tests.null k h g
null_test-Tests lib i us ts left is_not e k (NullTest.negated o h) g = Tests.not_null k o h g

module _ {E : Error → Type 0} {I : List Token → Type 0} (laws : Laws E I) where
  null_test-Reads : (ts : List Token) → ReadsAt laws NullTest null_test ts
  unfolding null_test when_match match_kind advance is_eof
  null_test-Reads [] i =
      Post-bind (ensure-Reads laws TokenType.null_literal [] refl i)
        λ (n, rest) (used, p, (c, k), j). returns (n ∷ [], rw (p, c) refl, NullTest.plain k, j)
  null_test-Reads (t ∷ ts) i = elim (Bool-cases (kind_is t.kind TokenType.not_token)) [
    | inl h ↦
        let k = kind_is→eq t.kind TokenType.not_token h in
        rw (h) (
          Post-bind (ensure-Reads laws TokenType.null_literal ts refl (kept laws t ts k refl i))
            λ (n, rest) (used, p, (c, k'), j).
              returns (t ∷ n ∷ [], ap (λ x. t ∷ x) (rw (p, c) refl), NullTest.negated k k', j))
    | inr h ↦ rw (h) (
        Post-bind (ensure-Reads laws TokenType.null_literal (t ∷ ts) refl i)
          λ (n, rest) (used, p, (c, k), j). returns (n ∷ [], rw (p, c) refl, NullTest.plain k, j))
  ]

  module _ (lib : Conversions) where
    mutual
      unfolding parse_logical advance match_kind is_eof

      parse_logical-Reads :
          (f : ℕ) (ts : List Token)
          → 4 * length ts + 3 < f
          → ReadsAt laws (Disjunction lib) (parse_logical lib f) ts
      parse_logical-Reads zero ts l i = absurd (omega arith)
      parse_logical-Reads (suc f) ts l i =
          Post-bind (parse_and_expression-Reads f ts (omega (arith, l)) i)
            λ (left, ts₁) (us, p, g, i₁).
              Post-map (or_loop-Reads f left ts₁ (omega (arith, l, left_shorter us ts₁ p)) i₁)
                λ (e, rest) (ws, q, h, j).
                  (us ++ ws, simp (p, q, append_assoc), Disjunction.disjunction us ws g h, j)

      or_loop-Reads :
          (f : ℕ) (left : Expression) (ts : List Token)
          → 4 * length ts < f
          → ReadsAt laws (λ used e. Ors lib left used e) (or_loop lib f left) ts
      or_loop-Reads zero left ts l i = absurd (omega arith)
      or_loop-Reads (suc f) left [] l i = returns ([], refl, Ors.no_or, i)
      or_loop-Reads (suc f) left (t ∷ ts) l i =
          Post-if (kind_is t.kind TokenType.or_token)
            (λ c.
              let k = kind_is→eq t.kind TokenType.or_token c in
              Post-bind
                (parse_and_expression-Reads f ts (omega (arith, l)) (kept laws t ts k refl i))
                λ (right, ts₁) (us, p, g, i₁).
                  Post-map (or_loop-Reads f _ ts₁ (omega (arith, l, left_shorter us ts₁ p)) i₁)
                    λ (e, rest) (ws, q, h, j). (
                      t ∷ (us ++ ws),
                      ap (λ x. t ∷ x) (simp (p, q, append_assoc)),
                      Ors.or_then us ws k g h,
                      j,
                    ))
            (λ _. returns ([], refl, Ors.no_or, i))

      parse_and_expression-Reads :
          (f : ℕ) (ts : List Token)
          → 4 * length ts + 2 < f
          → ReadsAt laws (Conjunction lib) (parse_and_expression lib f) ts
      parse_and_expression-Reads zero ts l i = absurd (omega arith)
      parse_and_expression-Reads (suc f) ts l i =
          Post-bind (parse_relational_expression-Reads f ts (omega (arith, l)) i)
            λ (left, ts₁) (us, p, g, i₁).
              Post-map (and_loop-Reads f left ts₁ (omega (arith, l, left_shorter us ts₁ p)) i₁)
                λ (e, rest) (ws, q, h, j).
                  (us ++ ws, simp (p, q, append_assoc), Conjunction.conjunction us ws g h, j)

      and_loop-Reads :
          (f : ℕ) (left : Expression) (ts : List Token)
          → 4 * length ts < f
          → ReadsAt laws (λ used e. Ands lib left used e) (and_loop lib f left) ts
      and_loop-Reads zero left ts l i = absurd (omega arith)
      and_loop-Reads (suc f) left [] l i = returns ([], refl, Ands.no_and, i)
      and_loop-Reads (suc f) left (t ∷ ts) l i =
          Post-if (kind_is t.kind TokenType.and_token)
            (λ c.
              let k = kind_is→eq t.kind TokenType.and_token c in
              Post-bind
                (parse_relational_expression-Reads f ts (omega (arith, l))
                  (kept laws t ts k refl i))
                λ (right, ts₁) (us, p, g, i₁).
                  Post-map (and_loop-Reads f _ ts₁ (omega (arith, l, left_shorter us ts₁ p)) i₁)
                    λ (e, rest) (ws, q, h, j). (
                      t ∷ (us ++ ws),
                      ap (λ x. t ∷ x) (simp (p, q, append_assoc)),
                      Ands.and_then us ws k g h,
                      j,
                    ))
            (λ _. returns ([], refl, Ands.no_and, i))

      parse_relational_expression-Reads :
          (f : ℕ) (ts : List Token)
          → 4 * length ts + 1 < f
          → ReadsAt laws (Relation lib) (parse_relational_expression lib f) ts
      parse_relational_expression-Reads zero ts l i = absurd (omega arith)
      parse_relational_expression-Reads (suc f) ts l i =
          Post-bind (parse_value_or_identifier-Reads f ts (omega (arith, l)) i)
            λ (left, ts₁) (us, p, g, i₁).
              Post-map
                (relational_loop-Reads f left ts₁ (omega (arith, l, left_shorter us ts₁ p)) i₁)
                λ (e, rest) (ws, q, h, j).
                  (us ++ ws, simp (p, q, append_assoc), Relation.relation us ws g h, j)

      relational_loop-Reads :
          (f : ℕ) (left : Expression) (ts : List Token)
          → 4 * length ts < f
          → ReadsAt laws (λ used e. Tests lib left used e) (relational_loop lib f left) ts
      relational_loop-Reads zero left ts l i = absurd (omega arith)
      relational_loop-Reads (suc f) left [] l i = throws (laws.past_end_allowed i)
      relational_loop-Reads (suc f) left (t ∷ ts) l i =
          Post-if (is_comparison t.kind)
            (λ c.
              Post-bind
                (parse_value_or_identifier-Reads f ts (omega (arith, l))
                  (laws.step t ts (comparison_not_eof t.kind c) i))
                λ (right, ts₁) (us, p, g, i₁).
                  Post-map
                    (relational_loop-Reads f _ ts₁ (omega (arith, l, left_shorter us ts₁ p)) i₁)
                    λ (e, rest) (ws, q, h, j). (
                      t ∷ (us ++ ws),
                      ap (λ x. t ∷ x) (simp (p, q, append_assoc)),
                      Tests.compare us ws c g h,
                      j,
                    ))
            (λ _.
              Post-if (kind_is t.kind TokenType.is_token)
                (λ c.
                  let k = kind_is→eq t.kind TokenType.is_token c in
                  Post-bind (null_test-Reads ts (kept laws t ts k refl i))
                    λ (is_not, ts₁) (us, p, g, i₁).
                      Post-map
                        (relational_loop-Reads f _ ts₁ (omega (arith, l, left_shorter us ts₁ p)) i₁)
                        λ (e, rest) (ws, q, h, j). (
                          t ∷ (us ++ ws),
                          ap (λ x. t ∷ x) (simp (p, q, append_assoc)),
                          null_test-Tests lib t us ws left is_not e k g h,
                          j,
                        ))
                (λ _. returns ([], refl, Tests.no_test, i)))

      parse_value_or_identifier-Reads :
          (f : ℕ) (ts : List Token)
          → 4 * length ts < f
          → ReadsAt laws (Primary lib) (parse_value_or_identifier lib f) ts
      parse_value_or_identifier-Reads zero ts l i = absurd (omega arith)
      parse_value_or_identifier-Reads (suc f) [] l i = throws (laws.past_end_allowed i)
      parse_value_or_identifier-Reads (suc f) (t ∷ ts) l i =
          value_at-Reads laws lib (parse_logical lib f) t ts t.kind refl
            (parse_logical-Reads f ts (omega (arith, l))) i

    -- Every expression that is read is in the grammar.
    pub parse_logical_expression-Reads :
        (ts : List Token) → ReadsAt laws (Disjunction lib) (parse_logical_expression lib) ts
    unfolding parse_logical_expression
    parse_logical_expression-Reads ts i = parse_logical-Reads (4 * length ts + 4) ts (omega arith) i
