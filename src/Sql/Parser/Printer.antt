-- ===== src/Sql/Parser/Printer.antt =====
-- Expressions of src/sql/parser.cpp as tokens, every operation in parentheses, and read back.
use mathlib.Core.List.{append-nil}
use lettydb.Common.{
  ℕ, ◌≡◌, ◌⊎◌, inl, inr, refl, subst, sym, List, [], ◌∷◌, ◌++◌, Bool, true, false, if◌then◌else◌,
}
use lettydb.Sql.Token.{TokenType, Token}
use lettydb.Sql.Lexer.{same_text}
use lettydb.Sql.Ast.{Literal, Expression}
use lettydb.Sql.Parser.{ok, Conversions}
use lettydb.Sql.Parser.Expressions.{is_comparison, or_text, and_text, parse_logical_expression}
use lettydb.Sql.Parser.Grammar.{Primary, Tests, Relation, Ands, Conjunction, Ors, Disjunction}
use lettydb.Sql.Parser.Accepts.{extends_expression, Ends}
use lettydb.Sql.Parser.Accepts.Levels.{parse_logical_expression-Disjunction}

-- The kind of an operator, by its text.
unfoldable pub operator_kind : List ℕ → TokenType
operator_kind op =
    if same_text op or_text
    then TokenType.or_token
    else (if same_text op and_text
        then TokenType.and_token
        else (if same_text op (61 ∷ [])
            then TokenType.eq_token
            else (if same_text op (33 ∷ 61 ∷ [])
                then TokenType.ne_token
                else (if same_text op (60 ∷ [])
                    then TokenType.lt_token
                    else (if same_text op (60 ∷ 61 ∷ [])
                        then TokenType.lte_token
                        else (if same_text op (62 ∷ [])
                            then TokenType.gt_token
                            else (if same_text op (62 ∷ 61 ∷ [])
                                then TokenType.gte_token
                                else TokenType.unknown)))))))

abbrev pub sign : TokenType → List ℕ → Token
sign k s = record { kind = k; text = s }

abbrev pub opening : Token
opening = sign TokenType.lparen_token (40 ∷ [])

abbrev pub closing : Token
closing = sign TokenType.rparen_token (41 ∷ [])

abbrev null_tokens : Bool → List Token
null_tokens false = sign TokenType.is_token [] ∷ sign TokenType.null_literal [] ∷ []
null_tokens true =
    sign TokenType.is_token [] ∷ sign TokenType.not_token [] ∷ sign TokenType.null_literal [] ∷ []

module _ (lib : Conversions) (spell : Literal → List Token) where
  unfoldable pub print : Expression → List Token
  unfolding operator_kind
  print (Expression.literal v) = spell v
  print (Expression.identifier s) = sign TokenType.identifier s ∷ []
  print (Expression.qualified a b) =
      sign TokenType.identifier a
      ∷ sign TokenType.dot_token (46 ∷ [])
      ∷ sign TokenType.identifier b
      ∷ []
  print (Expression.binary l op r) =
      opening ∷ ((print l ++ sign (operator_kind op) op ∷ print r) ++ closing ∷ [])
  print (Expression.is_null e is_not) = opening ∷ ((print e ++ null_tokens is_not) ++ closing ∷ [])

  -- The literals are spelled as the grammar says, and the operators are those of the grammar.
  abbrev pub IsPrintable : Expression → Type 0
  IsPrintable (Expression.literal v) = Primary lib (spell v) (Expression.literal v)
  IsPrintable (Expression.identifier s) = Unit {0}
  IsPrintable (Expression.qualified a b) = Unit {0}
  IsPrintable (Expression.binary l op r) =
      IsPrintable l
      × IsPrintable r
      × ((op ≡ or_text) ⊎ (op ≡ and_text) ⊎ (is_comparison (operator_kind op) ≡ true))
  IsPrintable (Expression.is_null e is_not) = IsPrintable e

  Relation-Primary : (ts : List Token) (e : Expression) → Primary lib ts e → Relation lib ts e
  Relation-Primary ts e g =
      subst (λ us. Relation lib us e) (append-nil ts) (Relation.relation ts [] g Tests.no_test)

  Conjunction-Relation :
      (ts : List Token) (e : Expression) → Relation lib ts e → Conjunction lib ts e
  Conjunction-Relation ts e g =
      subst (λ us. Conjunction lib us e) (append-nil ts)
        (Conjunction.conjunction ts [] g Ands.no_and)

  Disjunction-Conjunction :
      (ts : List Token) (e : Expression) → Conjunction lib ts e → Disjunction lib ts e
  Disjunction-Conjunction ts e g =
      subst (λ us. Disjunction lib us e) (append-nil ts) (Disjunction.disjunction ts [] g Ors.no_or)

  in_parentheses :
      (ts : List Token) (e : Expression)
      → Disjunction lib ts e
      → Primary lib (opening ∷ (ts ++ closing ∷ [])) e
  in_parentheses ts e g = Primary.nested ts closing refl g refl

  operation_or :
      (us ws : List Token) (op : Token) (l r : Expression)
      → op.kind ≡ TokenType.or_token
      → Primary lib us l
      → Primary lib ws r
      → Disjunction lib (us ++ op ∷ ws) (Expression.binary l or_text r)
  operation_or us ws op l r k g h =
      subst (λ xs. Disjunction lib (us ++ op ∷ xs) (Expression.binary l or_text r)) (append-nil ws)
        (Disjunction.disjunction us (op ∷ (ws ++ []))
          (Conjunction-Relation us l (Relation-Primary us l g))
          (Ors.or_then ws [] k (Conjunction-Relation ws r (Relation-Primary ws r h)) Ors.no_or))

  operation_and :
      (us ws : List Token) (op : Token) (l r : Expression)
      → op.kind ≡ TokenType.and_token
      → Primary lib us l
      → Primary lib ws r
      → Disjunction lib (us ++ op ∷ ws) (Expression.binary l and_text r)
  operation_and us ws op l r k g h =
      subst (λ xs. Disjunction lib (us ++ op ∷ xs) (Expression.binary l and_text r)) (append-nil ws)
        (Disjunction-Conjunction _ _ (
          Conjunction.conjunction us (op ∷ (ws ++ [])) (Relation-Primary us l g)
            (Ands.and_then ws [] k (Relation-Primary ws r h) Ands.no_and)))

  operation_compare :
      (us ws : List Token) (op : Token) (l r : Expression)
      → is_comparison op.kind ≡ true
      → Primary lib us l
      → Primary lib ws r
      → Disjunction lib (us ++ op ∷ ws) (Expression.binary l op.text r)
  operation_compare us ws op l r k g h =
      subst (λ xs. Disjunction lib (us ++ op ∷ xs) (Expression.binary l op.text r)) (append-nil ws)
        (Disjunction-Conjunction _ _ (
          Conjunction-Relation _ _
            (Relation.relation us (op ∷ (ws ++ [])) g (Tests.compare ws [] k h Tests.no_test))))

  operation_null :
      (us : List Token) (e : Expression) (is_not : Bool)
      → Primary lib us e
      → Disjunction lib (us ++ null_tokens is_not) (Expression.is_null e is_not)
  operation_null us e false g =
      Disjunction-Conjunction _ _
        (Conjunction-Relation _ _ (Relation.relation us _ g (Tests.null refl refl Tests.no_test)))
  operation_null us e true g = Disjunction-Conjunction _ _ (
      Conjunction-Relation _ _
        (Relation.relation us _ g (Tests.not_null refl refl refl Tests.no_test)))

  print_operation :
      (us ws : List Token) (op : List ℕ) (l r : Expression)
      → (op ≡ or_text) ⊎ (op ≡ and_text) ⊎ (is_comparison (operator_kind op) ≡ true)
      → Primary lib us l
      → Primary lib ws r
      → Disjunction lib (us ++ sign (operator_kind op) op ∷ ws) (Expression.binary l op r)
  unfolding operator_kind
  print_operation us ws op l r (inl e) g h =
      subst (λ o. Disjunction lib (us ++ sign (operator_kind o) o ∷ ws) (Expression.binary l o r))
        (sym e) (operation_or us ws _ l r refl g h)
  print_operation us ws op l r (inr (inl e)) g h =
      subst (λ o. Disjunction lib (us ++ sign (operator_kind o) o ∷ ws) (Expression.binary l o r))
        (sym e) (operation_and us ws _ l r refl g h)
  print_operation us ws op l r (inr (inr c)) g h = operation_compare us ws _ l r c g h

  print-Primary : (e : Expression) → IsPrintable e → Primary lib (print e) e
  unfolding print
  print-Primary (Expression.literal v) h = h
  print-Primary (Expression.identifier s) h = Primary.name refl
  print-Primary (Expression.qualified a b) h = Primary.member refl refl refl
  print-Primary (Expression.binary l op r) (hl, hr, h) =
      in_parentheses _ _
        (print_operation (print l) (print r) op l r h (print-Primary l hl) (print-Primary r hr))
  print-Primary (Expression.is_null e is_not) h =
      in_parentheses _ _ (operation_null (print e) e is_not (print-Primary e h))

  -- If an expression is printed with every operation in parentheses, its literals by tokens that
  -- the grammar allows for them and its operators OR, AND or a comparison, then
  -- `parse_logical_expression` reads it back and leaves the rest, provided a token follows that
  -- cannot go on with an expression.
  pub parse_logical_expression-print :
      (e : Expression) (rest : List Token)
      → IsPrintable e
      → Ends extends_expression rest
      → parse_logical_expression lib (print e ++ rest) ≡ ok (e, rest)
  parse_logical_expression-print e rest h ends =
      parse_logical_expression-Disjunction lib (print e) rest e
        (Disjunction-Conjunction _ _
          (Conjunction-Relation _ _ (Relation-Primary _ _ (print-Primary e h))))
        ends
