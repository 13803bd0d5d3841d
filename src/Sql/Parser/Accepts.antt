-- ===== src/Sql/Parser/Accepts.antt =====
-- src/sql/parser.cpp: parse_logical_expression reads every expression of the grammar, as far as it
-- goes.
pub mod Steps
pub mod Levels
use mathlib.Core.List.{append_assoc}
use lettydb.Common.{
  ℕ, zero, suc, ◌+◌, ◌*◌, ◌≤◌, ◌<◌, ◌≡◌, ◌⊎◌, inl, inr, refl, ap, subst, sym, List, [], ◌∷◌, ◌++◌,
  Bool, true, false, ◌||◌, ◌&&◌, not, some, arith, length, length-append, Bool-cases,
}
use lettydb.Sql.Token.{TokenType, Token}
use lettydb.Sql.Token.Kinds.{kind_is, kind_is→eq}
use lettydb.Sql.Ast.{Literal, Expression}
use lettydb.Sql.Parser.{ok, Conversions, advance, match_kind, ensure, when_match, converted}
use lettydb.Sql.Parser.Expressions.{
  is_comparison, qualified_name, null_test, negated, value_at, parse_logical, or_loop,
  parse_and_expression, and_loop, parse_relational_expression, relational_loop,
  parse_value_or_identifier, parse_logical_expression,
}
use lettydb.Sql.Parser.Grammar.{
  Constant, Negative, Primary, Tests, Relation, Ands, Conjunction, Ors, Disjunction,
}

-- The tokens that go on with an expression, level by level.
unfoldable pub extends_name : TokenType → Bool
extends_name TokenType.dot_token = true
extends_name k = false

unfoldable pub extends_relation : TokenType → Bool
unfolding extends_name is_comparison kind_is
extends_relation k = extends_name k || is_comparison k || kind_is k TokenType.is_token

unfoldable pub extends_conjunction : TokenType → Bool
unfolding extends_relation kind_is
extends_conjunction k = extends_relation k || kind_is k TokenType.and_token

unfoldable pub extends_expression : TokenType → Bool
unfolding extends_conjunction kind_is
extends_expression k = extends_conjunction k || kind_is k TokenType.or_token

-- There is a next token, and none of a kind that `extends` tests.
abbrev pub Ends : (TokenType → Bool) → List Token → Type 0
Ends extends [] = ⊥
Ends extends (t ∷ rest) = extends t.kind ≡ false

-- A test of the kind of the first token, at a kind that is known.
pub known_kind :
    (t : Token) (k : TokenType) (p : TokenType → Bool) {b : Bool}
    → t.kind ≡ k
    → p k ≡ b
    → p t.kind ≡ b
known_kind t k p e h = rw (e) h

module _ (lib : Conversions) where
  pub Constant-value_at :
      (f : ℕ) (t : Token) (v : Literal) (rest : List Token)
      → Constant lib t v
      → parse_value_or_identifier lib (suc f) (t ∷ rest) ≡ ok (Expression.literal v, rest)
  unfolding parse_value_or_identifier value_at converted
  Constant-value_at f t v rest (Constant.integer k s) = rw (k, s) refl
  Constant-value_at f t v rest (Constant.double k s) = rw (k, s) refl
  Constant-value_at f t v rest (Constant.null_value k) = rw (k) refl
  Constant-value_at f t v rest (Constant.date k) = rw (k) refl
  Constant-value_at f t v rest (Constant.timestamp k) = rw (k) refl
  Constant-value_at f t v rest (Constant.text k) = rw (k) refl
  Constant-value_at f t v rest (Constant.true_value k) = rw (k) refl
  Constant-value_at f t v rest (Constant.false_value k) = rw (k) refl

  pub negated-Negative :
      (t : Token) (v : Literal) (rest : List Token)
      → Negative lib t v
      → negated lib (t ∷ rest) ≡ ok (v, rest)
  unfolding negated converted kind_is lettydb.Sql.Token.Kinds.ordinal
  negated-Negative t v rest (Negative.integer k s) = rw (k, s) refl
  negated-Negative t v rest (Negative.double k s) = rw (k, s) refl

  pub name-Ends :
      (t : Token) (rest : List Token)
      → Ends extends_name rest
      → qualified_name t.text rest ≡ ok (Expression.identifier t.text, rest)
  unfolding qualified_name when_match match_kind extends_name
  name-Ends t [] h = absurd h
  name-Ends t (u ∷ rest) h = elim (Bool-cases (kind_is u.kind TokenType.dot_token)) [
    | inl d ↦ cc (
        known_kind u TokenType.dot_token extends_name (kind_is→eq u.kind TokenType.dot_token d)
          refl)
    | inr n ↦ rw (n) refl
  ]
