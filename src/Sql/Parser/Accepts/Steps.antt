-- ===== src/Sql/Parser/Accepts/Steps.antt =====
-- src/sql/parser.cpp: one call of each level of an expression, on tokens that the grammar allows.
use mathlib.Core.List.{append_assoc}
use lettydb.Common.{ℕ, suc, ◌≡◌, refl, List, [], ◌∷◌, ◌++◌, true, false, arith}
use lettydb.Sql.Token.{TokenType, Token}
use lettydb.Sql.Token.Kinds.{kind_is, kind_is→eq}
use lettydb.Sql.Ast.{Literal, Expression}
use lettydb.Sql.Parser.{ok, Conversions, advance, match_kind, ensure, when_match}
use lettydb.Sql.Parser.Expressions.{
  is_comparison, qualified_name, null_test, value_at, parse_logical, or_loop, parse_and_expression,
  and_loop, parse_relational_expression, relational_loop, parse_value_or_identifier,
}
use lettydb.Sql.Parser.Grammar.{Negative, Tests, Ands, Ors}
use lettydb.Sql.Parser.Accepts.{
  extends_name, extends_relation, extends_conjunction, extends_expression, Ends, known_kind,
  negated-Negative, name-Ends,
}

-- What ends a level ends the levels above it.
Ends-name : (ts : List Token) → Ends extends_relation ts → Ends extends_name ts
unfolding extends_relation
Ends-name [] h = h
Ends-name (t ∷ ts) h = ground arith

Ends-relation : (ts : List Token) → Ends extends_conjunction ts → Ends extends_relation ts
unfolding extends_conjunction
Ends-relation [] h = h
Ends-relation (t ∷ ts) h = ground arith

Ends-conjunction : (ts : List Token) → Ends extends_expression ts → Ends extends_conjunction ts
unfolding extends_expression
Ends-conjunction [] h = h
Ends-conjunction (t ∷ ts) h = ground arith

module _ (lib : Conversions) where
  comparison_ends_name : (k : TokenType) → is_comparison k ≡ true → extends_name k ≡ false
  unfolding is_comparison kind_is extends_name lettydb.Sql.Token.Kinds.ordinal
  comparison_ends_name TokenType.dot_token h = cc
  comparison_ends_name k h = refl

  -- What follows an operand is what ends it.
  pub Tests-end_name :
      {left e : Expression} (ts rest : List Token)
      → Tests lib left ts e
      → Ends extends_relation rest
      → Ends extends_name (ts ++ rest)
  unfolding extends_name
  Tests-end_name ts rest Tests.no_test h = Ends-name rest h
  Tests-end_name ts rest (Tests.compare {op} us ws c g t) h = comparison_ends_name op.kind c
  Tests-end_name ts rest (Tests.null {i} k n t) h =
      known_kind i TokenType.is_token extends_name k refl
  Tests-end_name ts rest (Tests.not_null {i} k o n t) h =
      known_kind i TokenType.is_token extends_name k refl

  pub Ands-end_relation :
      {left e : Expression} (ts rest : List Token)
      → Ands lib left ts e
      → Ends extends_conjunction rest
      → Ends extends_relation (ts ++ rest)
  unfolding extends_relation extends_name is_comparison kind_is lettydb.Sql.Token.Kinds.ordinal
  Ands-end_relation ts rest Ands.no_and h = Ends-relation rest h
  Ands-end_relation ts rest (Ands.and_then {op} us ws k g t) h =
      known_kind op TokenType.and_token extends_relation k refl

  pub Ors-end_conjunction :
      {left e : Expression} (ts rest : List Token)
      → Ors lib left ts e
      → Ends extends_expression rest
      → Ends extends_conjunction (ts ++ rest)
  unfolding extends_conjunction extends_relation extends_name is_comparison kind_is
      lettydb.Sql.Token.Kinds.ordinal
  Ors-end_conjunction ts rest Ors.no_or h = Ends-conjunction rest h
  Ors-end_conjunction ts rest (Ors.or_then {op} us ws k g t) h =
      known_kind op TokenType.or_token extends_conjunction k refl

  pub member_value :
      (f : ℕ) (t d u : Token) (rest : List Token)
      → t.kind ≡ TokenType.identifier
      → d.kind ≡ TokenType.dot_token
      → u.kind ≡ TokenType.identifier
      → parse_value_or_identifier lib (suc f) (t ∷ d ∷ u ∷ rest)
        ≡ ok (Expression.qualified t.text u.text, rest)
  unfolding parse_value_or_identifier value_at qualified_name when_match match_kind advance ensure
      kind_is lettydb.Sql.Token.Kinds.ordinal
  member_value f t d u rest k k' k'' = rw (k, k', k'') refl

  pub name_value :
      (f : ℕ) (t : Token) (rest : List Token)
      → t.kind ≡ TokenType.identifier
      → Ends extends_name rest
      → parse_value_or_identifier lib (suc f) (t ∷ rest) ≡ ok (Expression.identifier t.text, rest)
  unfolding parse_value_or_identifier value_at
  name_value f t rest k h = rw (k) (name-Ends lib t rest h)

  pub Negative-value :
      (f : ℕ) (m t : Token) (v : Literal) (rest : List Token)
      → m.kind ≡ TokenType.minus_token
      → Negative lib t v
      → parse_value_or_identifier lib (suc f) (m ∷ t ∷ rest) ≡ ok (Expression.literal v, rest)
  unfolding parse_value_or_identifier value_at
  Negative-value f m t v rest k n = rw (k, negated-Negative lib t v rest n) refl

  pub nested_value :
      (f : ℕ) (a r : Token) (ts rest : List Token) (e : Expression)
      → a.kind ≡ TokenType.lparen_token
      → r.kind ≡ TokenType.rparen_token
      → parse_logical lib f (ts ++ r ∷ rest) ≡ ok (e, r ∷ rest)
      → parse_value_or_identifier lib (suc f) (a ∷ ((ts ++ r ∷ []) ++ rest)) ≡ ok (e, rest)
  unfolding parse_value_or_identifier value_at ensure kind_is lettydb.Sql.Token.Kinds.ordinal
  nested_value f a r ts rest e k k' h = rw (k, append_assoc ts (r ∷ []) rest, h, k') refl

  pub closing-Ends :
      (r : Token) (rest : List Token)
      → r.kind ≡ TokenType.rparen_token
      → Ends extends_expression (r ∷ rest)
  unfolding extends_expression extends_conjunction extends_relation extends_name is_comparison
      kind_is lettydb.Sql.Token.Kinds.ordinal
  closing-Ends r rest k = known_kind r TokenType.rparen_token extends_expression k refl

  pub compare_step :
      (f : ℕ) (op : Token) (us ts rest : List Token) (left right : Expression)
      → is_comparison op.kind ≡ true
      → parse_value_or_identifier lib f (us ++ (ts ++ rest)) ≡ ok (right, ts ++ rest)
      → relational_loop lib (suc f) left (op ∷ ((us ++ ts) ++ rest))
        ≡ relational_loop lib f (Expression.binary left op.text right) (ts ++ rest)
  unfolding relational_loop
  compare_step f op us ts rest left right c h = rw (c, append_assoc us ts rest, h) refl

  pub null_step :
      (f : ℕ) (i n : Token) (rest : List Token) (left : Expression)
      → i.kind ≡ TokenType.is_token
      → n.kind ≡ TokenType.null_literal
      → relational_loop lib (suc f) left (i ∷ n ∷ rest)
        ≡ relational_loop lib f (Expression.is_null left false) rest
  unfolding relational_loop null_test when_match match_kind advance ensure is_comparison kind_is
      lettydb.Sql.Token.Kinds.ordinal
  null_step f i n rest left k k' = rw (k, k') refl

  pub not_null_step :
      (f : ℕ) (i o n : Token) (rest : List Token) (left : Expression)
      → i.kind ≡ TokenType.is_token
      → o.kind ≡ TokenType.not_token
      → n.kind ≡ TokenType.null_literal
      → relational_loop lib (suc f) left (i ∷ o ∷ n ∷ rest)
        ≡ relational_loop lib f (Expression.is_null left true) rest
  unfolding relational_loop null_test when_match match_kind advance ensure is_comparison kind_is
      lettydb.Sql.Token.Kinds.ordinal
  not_null_step f i o n rest left k k' k'' = rw (k, k', k'') refl

  pub no_test_step :
      (f : ℕ) (rest : List Token) (left : Expression)
      → Ends extends_relation rest
      → relational_loop lib (suc f) left rest ≡ ok (left, rest)
  unfolding relational_loop extends_relation
  no_test_step f [] left h = absurd h
  no_test_step f (t ∷ rest) left h = ground arith

  pub and_step :
      (f : ℕ) (op : Token) (us ts rest : List Token) (left right : Expression)
      → op.kind ≡ TokenType.and_token
      → parse_relational_expression lib f (us ++ (ts ++ rest)) ≡ ok (right, ts ++ rest)
      → and_loop lib (suc f) left (op ∷ ((us ++ ts) ++ rest))
        ≡ and_loop lib f (Expression.binary left (65 ∷ 78 ∷ 68 ∷ []) right) (ts ++ rest)
  unfolding and_loop match_kind advance kind_is lettydb.Sql.Token.Kinds.ordinal
  and_step f op us ts rest left right k h = rw (k, append_assoc us ts rest, h) refl

  pub no_and_step :
      (f : ℕ) (rest : List Token) (left : Expression)
      → Ends extends_conjunction rest
      → and_loop lib (suc f) left rest ≡ ok (left, rest)
  unfolding and_loop match_kind extends_conjunction
  no_and_step f [] left h = absurd h
  no_and_step f (t ∷ rest) left h = ground arith

  pub or_step :
      (f : ℕ) (op : Token) (us ts rest : List Token) (left right : Expression)
      → op.kind ≡ TokenType.or_token
      → parse_and_expression lib f (us ++ (ts ++ rest)) ≡ ok (right, ts ++ rest)
      → or_loop lib (suc f) left (op ∷ ((us ++ ts) ++ rest))
        ≡ or_loop lib f (Expression.binary left (79 ∷ 82 ∷ []) right) (ts ++ rest)
  unfolding or_loop match_kind advance kind_is lettydb.Sql.Token.Kinds.ordinal
  or_step f op us ts rest left right k h = rw (k, append_assoc us ts rest, h) refl

  pub no_or_step :
      (f : ℕ) (rest : List Token) (left : Expression)
      → Ends extends_expression rest
      → or_loop lib (suc f) left rest ≡ ok (left, rest)
  unfolding or_loop match_kind extends_expression
  no_or_step f [] left h = absurd h
  no_or_step f (t ∷ rest) left h = ground arith
