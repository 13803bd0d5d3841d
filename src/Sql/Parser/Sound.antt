-- ===== src/Sql/Parser/Sound.antt =====
-- src/sql/parser.cpp: what parse_logical_expression accepts is in the grammar.
pub mod Levels
use lettydb.Common.{
  ℕ, zero, suc, ◌+◌, ◌*◌, ◌≤◌, ◌<◌, ◌≡◌, refl, ap, subst, List, [], ◌∷◌, ◌++◌, Bool, true, false,
  arith, if◌then◌else◌, length, length-append, Bool-cases, inl, inr, Option, none, some,
  Option-cases,
}
use mathlib.Core.List.{append_assoc}
use lettydb.Sql.Token.{TokenType, Token}
use lettydb.Sql.Token.Kinds.{kind_is, kind_is→eq}
use lettydb.Sql.Lexer.{is_eof}
use lettydb.Sql.Ast.{Literal, Expression}
use lettydb.Sql.Parser.{
  Error, Result, ok, err, Parser, Conversions, advance, match_kind, ensure, when_match, converted,
}
use lettydb.Sql.Parser.Expressions.{
  is_comparison, qualified_name, null_test, negated, value_at, parse_logical, or_loop,
  parse_and_expression, and_loop, parse_relational_expression, relational_loop,
  parse_value_or_identifier, parse_logical_expression,
}
use lettydb.Sql.Parser.Grammar.{
  Constant, Negative, Primary, Tests, Relation, Ands, Conjunction, Ors, Disjunction,
}
use lettydb.Sql.Parser.Keeps.{Post, returns, throws, Post-bind, Post-if, weaken, Laws, kind_not_eof}

module _ {E : Error → Type 0} {I : List Token → Type 0} (laws : Laws E I) where
  -- What was read of `ts`, as `G` says, and what is left.
  abbrev pub Reads : {A : Type 0} → (List Token → A → Type 0) → List Token → A × List Token → Type 0
  Reads G ts r = (used : List Token) × (ts ≡ used ++ r.1) × G used r.0 × I r.1

  abbrev pub ReadsAt : {A : Type 0} → (List Token → A → Type 0) → Parser A → List Token → Type 0
  ReadsAt G p ts = I ts → Post E (Reads G ts) (p ts)

  pub kept :
      (t : Token) (rest : List Token) {k : TokenType}
      → t.kind ≡ k
      → is_eof k ≡ false
      → I (t ∷ rest)
      → I rest
  kept t rest e n i = laws.step t rest (rw (e) n) i

  pub ensure-Reads :
      (kind : TokenType) (ts : List Token)
      → is_eof kind ≡ false
      → ReadsAt (λ used t. (used ≡ t ∷ []) × (t.kind ≡ kind)) (ensure kind) ts
  unfolding ensure
  ensure-Reads kind [] n i = throws (laws.past_end_allowed i)
  ensure-Reads kind (t ∷ rest) n i =
      Post-if (kind_is t.kind kind)
        (λ h.
          let e = kind_is→eq t.kind kind h in returns (t ∷ [], refl, (refl, e), kept t rest e n i))
        (λ _. throws laws.parse_error_allowed)

  module _ (lib : Conversions) where
    qualified_name-Reads :
        (t : Token) (ts : List Token)
        → t.kind ≡ TokenType.identifier
        → ReadsAt (λ used e. Primary lib (t ∷ used) e) (qualified_name t.text) ts
    unfolding qualified_name when_match match_kind advance is_eof
    qualified_name-Reads t [] k i = returns ([], refl, Primary.name k, i)
    qualified_name-Reads t (d ∷ ts) k i =
        Post-if (kind_is d.kind TokenType.dot_token)
          (λ h.
            let e = kind_is→eq d.kind TokenType.dot_token h in
            Post-bind (ensure-Reads TokenType.identifier ts refl (kept d ts e refl i))
              λ (u, rest) (used, p, (q, k'), j).
                returns (d ∷ u ∷ [], ap (λ x. d ∷ x) (rw (p, q) refl), Primary.member k e k', j))
          (λ _. returns ([], refl, Primary.name k, i))

    pub negated-Reads :
        (ts : List Token)
        → ReadsAt (λ used v. (t : Token) × (used ≡ t ∷ []) × Negative lib t v) (negated lib) ts
    unfolding negated converted is_eof
    negated-Reads [] i = throws laws.parse_error_allowed
    negated-Reads (t ∷ rest) i =
        Post-if (kind_is t.kind TokenType.int_literal)
          (λ h.
            let e = kind_is→eq t.kind TokenType.int_literal h in
            elim (Option-cases (lib.stoll t.text)) [
              | inl n ↦ rw (n) (throws laws.out_of_range_allowed)
              | inr (v, s) ↦
                  rw (s)
                    (returns (t ∷ [], refl, (t, refl, Negative.integer e s), kept t rest e refl i))
            ])
          (λ _.
            Post-if (kind_is t.kind TokenType.float_literal)
              (λ h.
                let e = kind_is→eq t.kind TokenType.float_literal h in
                elim (Option-cases (lib.stod t.text)) [
                  | inl n ↦ rw (n) (throws laws.out_of_range_allowed)
                  | inr (v, s) ↦
                      rw (s) (
                        returns
                          (t ∷ [], refl, (t, refl, Negative.double e s), kept t rest e refl i))
                ])
              (λ _. throws laws.parse_error_allowed))

    pub value_at-Reads :
        (nested : Parser Expression) (t : Token) (rest : List Token) (k : TokenType)
        → t.kind ≡ k
        → ReadsAt (Disjunction lib) nested rest
        → I (t ∷ rest)
        → Post E (Reads (Primary lib) (t ∷ rest)) (value_at lib nested k t.text rest)
    unfolding value_at converted is_eof
    value_at-Reads nested t rest TokenType.int_literal k n i =
        elim (Option-cases (lib.stoll t.text)) [
          | inl s ↦ rw (s) (throws laws.out_of_range_allowed)
          | inr (v, s) ↦ rw (s) (
              returns (t ∷ [], refl, Primary.constant (Constant.integer k s), kept t rest k refl i))
        ]
    value_at-Reads nested t rest TokenType.float_literal k n i =
        elim (Option-cases (lib.stod t.text)) [
          | inl s ↦ rw (s) (throws laws.out_of_range_allowed)
          | inr (v, s) ↦
              rw (s) (
                returns
                  (t ∷ [], refl, Primary.constant (Constant.double k s), kept t rest k refl i))
        ]
    value_at-Reads nested t rest TokenType.minus_token k n i =
        Post-bind (negated-Reads rest (kept t rest k refl i)) λ (v, left) (used, p, (u, q, h), j).
          returns (t ∷ u ∷ [], ap (λ x. t ∷ x) (rw (p, q) refl), Primary.negative k h, j)
    value_at-Reads nested t rest TokenType.null_literal k n i =
        returns (t ∷ [], refl, Primary.constant (Constant.null_value k), kept t rest k refl i)
    value_at-Reads nested t rest TokenType.date_literal k n i =
        returns (t ∷ [], refl, Primary.constant (Constant.date k), kept t rest k refl i)
    value_at-Reads nested t rest TokenType.timestamp_literal k n i =
        returns (t ∷ [], refl, Primary.constant (Constant.timestamp k), kept t rest k refl i)
    value_at-Reads nested t rest TokenType.string_literal k n i =
        returns (t ∷ [], refl, Primary.constant (Constant.text k), kept t rest k refl i)
    value_at-Reads nested t rest TokenType.true_token k n i =
        returns (t ∷ [], refl, Primary.constant (Constant.true_value k), kept t rest k refl i)
    value_at-Reads nested t rest TokenType.false_token k n i =
        returns (t ∷ [], refl, Primary.constant (Constant.false_value k), kept t rest k refl i)
    value_at-Reads nested t rest TokenType.identifier k n i =
        weaken (λ (e, left) (used, p, g, j). (t ∷ used, ap (λ x. t ∷ x) p, g, j))
          (qualified_name-Reads t rest k (kept t rest k refl i))
    value_at-Reads nested t rest TokenType.lparen_token k n i =
        Post-bind (n (kept t rest k refl i)) λ (e, left) (used, p, g, j).
          Post-bind (ensure-Reads TokenType.rparen_token left refl j)
            λ (r, after) (closing, q, (c, k'), j'). returns (
              t ∷ (used ++ r ∷ []),
              ap (λ x. t ∷ x) (simp (p, q, c, append_assoc)),
              Primary.nested used r k g k',
              j',
            )
    value_at-Reads nested t rest kind k n i = throws laws.parse_error_allowed
