-- ===== src/Sql/Parser/Grammar.antt =====
-- The grammar of the expressions of src/sql/parser.cpp, told apart from the code: which lists of
-- tokens spell an expression. OR binds weaker than AND, AND weaker than the comparisons and IS
-- [NOT] NULL, and each of the three levels groups to the left.
use lettydb.Common.{ℕ, ℤ, ◌≡◌, List, [], ◌∷◌, ◌++◌, true, false, some}
use lettydb.Sql.Token.{TokenType, Token}
use lettydb.Sql.Ast.{Literal, Expression}
use lettydb.Sql.Parser.{Conversions, parse_date_literal, parse_timestamp_literal}
use lettydb.Sql.Parser.Expressions.{is_comparison, negate, or_text, and_text}

module _ (lib : Conversions) where
  -- The literals of one token.
  pub data Constant : Token → Literal → Type 0 where
    integer :
        {t : Token} {v : ℤ}
        → t.kind ≡ TokenType.int_literal
        → lib.stoll t.text ≡ some v
        → Constant t (Literal.integer v)
    double :
        {t : Token} {v : ℕ}
        → t.kind ≡ TokenType.float_literal
        → lib.stod t.text ≡ some v
        → Constant t (Literal.double v)
    null_value : {t : Token} → t.kind ≡ TokenType.null_literal → Constant t Literal.null_value
    date :
        {t : Token}
        → t.kind ≡ TokenType.date_literal
        → Constant t (Literal.date (parse_date_literal lib t.text))
    timestamp :
        {t : Token}
        → t.kind ≡ TokenType.timestamp_literal
        → Constant t (Literal.timestamp (parse_timestamp_literal lib t.text))
    text : {t : Token} → t.kind ≡ TokenType.string_literal → Constant t (Literal.text t.text)
    true_value : {t : Token} → t.kind ≡ TokenType.true_token → Constant t (Literal.boolean true)
    false_value : {t : Token} → t.kind ≡ TokenType.false_token → Constant t (Literal.boolean false)

  -- The literals of a minus sign and a number.
  pub data Negative : Token → Literal → Type 0 where
    integer :
        {t : Token} {v : ℤ}
        → t.kind ≡ TokenType.int_literal
        → lib.stoll t.text ≡ some v
        → Negative t (Literal.integer (negate v))
    double :
        {t : Token} {v : ℕ}
        → t.kind ≡ TokenType.float_literal
        → lib.stod t.text ≡ some v
        → Negative t (Literal.double (lib.negate_double v))

  mutual
    pub data Primary : List Token → Expression → Type 0 where
      constant : {t : Token} {v : Literal} → Constant t v → Primary (t ∷ []) (Expression.literal v)
      negative :
          {m t : Token} {v : Literal}
          → m.kind ≡ TokenType.minus_token
          → Negative t v
          → Primary (m ∷ t ∷ []) (Expression.literal v)
      name :
          {t : Token}
          → t.kind ≡ TokenType.identifier
          → Primary (t ∷ []) (Expression.identifier t.text)
      member :
          {t d u : Token}
          → t.kind ≡ TokenType.identifier
          → d.kind ≡ TokenType.dot_token
          → u.kind ≡ TokenType.identifier
          → Primary (t ∷ d ∷ u ∷ []) (Expression.qualified t.text u.text)
      nested :
          {l : Token} {e : Expression} (ts : List Token) (r : Token)
          → l.kind ≡ TokenType.lparen_token
          → Disjunction ts e
          → r.kind ≡ TokenType.rparen_token
          → Primary (l ∷ (ts ++ r ∷ [])) e

    -- The tokens that make `e` of the operand on the left.
    pub data Tests : Expression → List Token → Expression → Type 0 where
      no_test : {left : Expression} → Tests left [] left
      compare :
          {left right e : Expression} {op : Token} (us ts : List Token)
          → is_comparison op.kind ≡ true
          → Primary us right
          → Tests (Expression.binary left op.text right) ts e
          → Tests left (op ∷ (us ++ ts)) e
      null :
          {left e : Expression} {i n : Token} {ts : List Token}
          → i.kind ≡ TokenType.is_token
          → n.kind ≡ TokenType.null_literal
          → Tests (Expression.is_null left false) ts e
          → Tests left (i ∷ n ∷ ts) e
      not_null :
          {left e : Expression} {i o n : Token} {ts : List Token}
          → i.kind ≡ TokenType.is_token
          → o.kind ≡ TokenType.not_token
          → n.kind ≡ TokenType.null_literal
          → Tests (Expression.is_null left true) ts e
          → Tests left (i ∷ o ∷ n ∷ ts) e

    pub data Relation : List Token → Expression → Type 0 where
      relation :
          {left e : Expression} (us ts : List Token)
          → Primary us left
          → Tests left ts e
          → Relation (us ++ ts) e

    pub data Ands : Expression → List Token → Expression → Type 0 where
      no_and : {left : Expression} → Ands left [] left
      and_then :
          {left right e : Expression} {op : Token} (us ts : List Token)
          → op.kind ≡ TokenType.and_token
          → Relation us right
          → Ands (Expression.binary left and_text right) ts e
          → Ands left (op ∷ (us ++ ts)) e

    pub data Conjunction : List Token → Expression → Type 0 where
      conjunction :
          {left e : Expression} (us ts : List Token)
          → Relation us left
          → Ands left ts e
          → Conjunction (us ++ ts) e

    pub data Ors : Expression → List Token → Expression → Type 0 where
      no_or : {left : Expression} → Ors left [] left
      or_then :
          {left right e : Expression} {op : Token} (us ts : List Token)
          → op.kind ≡ TokenType.or_token
          → Conjunction us right
          → Ors (Expression.binary left or_text right) ts e
          → Ors left (op ∷ (us ++ ts)) e

    pub data Disjunction : List Token → Expression → Type 0 where
      disjunction :
          {left e : Expression} (us ts : List Token)
          → Conjunction us left
          → Ors left ts e
          → Disjunction (us ++ ts) e
