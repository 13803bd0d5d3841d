-- ===== src/Sql/Parser/Accepts/Levels.antt =====
-- src/sql/parser.cpp: the levels of an expression read what the grammar says, by one induction on
-- the fuel.
use mathlib.Core.List.{append_assoc}
use lettydb.Common.{
  ℕ, zero, suc, ◌+◌, ◌*◌, ◌<◌, ◌≡◌, ◌∙◌, List, [], ◌∷◌, ◌++◌, arith, length, length-append,
}
use lettydb.Sql.Token.{Token}
use lettydb.Sql.Ast.{Expression}
use lettydb.Sql.Parser.{ok, Conversions}
use lettydb.Sql.Parser.Expressions.{
  parse_logical, or_loop, parse_and_expression, and_loop, parse_relational_expression,
  relational_loop, parse_value_or_identifier, parse_logical_expression,
}
use lettydb.Sql.Parser.Grammar.{Primary, Tests, Relation, Ands, Conjunction, Ors, Disjunction}
use lettydb.Sql.Parser.Accepts.{
  extends_name, extends_relation, extends_conjunction, extends_expression, Ends, Constant-value_at,
}
use lettydb.Sql.Parser.Accepts.Steps.{
  Tests-end_name, Ands-end_relation, Ors-end_conjunction, member_value, name_value, Negative-value,
  nested_value, closing-Ends, compare_step, null_step, not_null_step, no_test_step, and_step,
  no_and_step, or_step, no_or_step,
}

-- The tokens of an operand and of what follows it.
longer : (us ts : List Token) → length (us ++ ts) ≡ length us + length ts
longer = length-append

module _ (lib : Conversions) where
  mutual
    unfolding parse_logical

    value-lem :
        (f : ℕ) (us rest : List Token) (e : Expression)
        → Primary lib us e
        → Ends extends_name rest
        → 4 * length us < f
        → parse_value_or_identifier lib f (us ++ rest) ≡ ok (e, rest)
    value-lem zero us rest e g h l = absurd (omega arith)
    value-lem (suc f) us rest e (Primary.constant {t} {v} c) h l =
        Constant-value_at lib f t v rest c
    value-lem (suc f) us rest e (Primary.negative {m} {t} {v} k n) h l =
        Negative-value lib f m t v rest k n
    value-lem (suc f) us rest e (Primary.name {t} k) h l = name_value lib f t rest k h
    value-lem (suc f) us rest e (Primary.member {t} {d} {u} k k' k'') h l =
        member_value lib f t d u rest k k' k''
    value-lem (suc f) us rest e (Primary.nested {l = a} ts r k g k') h l =
        nested_value lib f a r ts rest e k k' (
          logical-lem f ts (r ∷ rest) e g (closing-Ends lib r rest k')
            (omega (arith, l, longer ts (r ∷ []))))

    Tests-lem :
        (f : ℕ) (ts rest : List Token) (left e : Expression)
        → Tests lib left ts e
        → Ends extends_relation rest
        → 4 * length ts < f
        → relational_loop lib f left (ts ++ rest) ≡ ok (e, rest)
    Tests-lem zero ts rest left e g h l = absurd (omega arith)
    Tests-lem (suc f) ts rest left e Tests.no_test h l = no_test_step lib f rest left h
    Tests-lem (suc f) ts rest left e (Tests.compare {right} {op} us ws c g t) h l =
        compare_step lib f op us ws rest left right c (
          value-lem f us (ws ++ rest) right g (Tests-end_name lib ws rest t h)
            (omega (arith, l, longer us ws)))
        ∙ Tests-lem f ws rest _ e t h (omega (arith, l, longer us ws))
    Tests-lem (suc f) ts rest left e (Tests.null {i} {n} {ts = ws} k k' t) h l =
        null_step lib f i n (ws ++ rest) left k k' ∙ Tests-lem f ws rest _ e t h (omega (arith, l))
    Tests-lem (suc f) ts rest left e (Tests.not_null {i} {o} {n} {ts = ws} k k' k'' t) h l =
        not_null_step lib f i o n (ws ++ rest) left k k' k''
        ∙ Tests-lem f ws rest _ e t h (omega (arith, l))

    Relation-lem :
        (f : ℕ) (ts rest : List Token) (e : Expression)
        → Relation lib ts e
        → Ends extends_relation rest
        → 4 * length ts + 1 < f
        → parse_relational_expression lib f (ts ++ rest) ≡ ok (e, rest)
    Relation-lem zero ts rest e g h l = absurd (omega arith)
    Relation-lem (suc f) ts rest e (Relation.relation {left} us ws g t) h l =
        rw
          (
            append_assoc us ws rest,
            value-lem f us (ws ++ rest) left g (Tests-end_name lib ws rest t h)
                (omega (arith, l, longer us ws)),
          )
          (Tests-lem f ws rest left e t h (omega (arith, l, longer us ws)))

    Ands-lem :
        (f : ℕ) (ts rest : List Token) (left e : Expression)
        → Ands lib left ts e
        → Ends extends_conjunction rest
        → 4 * length ts < f
        → and_loop lib f left (ts ++ rest) ≡ ok (e, rest)
    Ands-lem zero ts rest left e g h l = absurd (omega arith)
    Ands-lem (suc f) ts rest left e Ands.no_and h l = no_and_step lib f rest left h
    Ands-lem (suc f) ts rest left e (Ands.and_then {right} {op} us ws k g t) h l =
        and_step lib f op us ws rest left right k (
          Relation-lem f us (ws ++ rest) right g (Ands-end_relation lib ws rest t h)
            (omega (arith, l, longer us ws)))
        ∙ Ands-lem f ws rest _ e t h (omega (arith, l, longer us ws))

    Conjunction-lem :
        (f : ℕ) (ts rest : List Token) (e : Expression)
        → Conjunction lib ts e
        → Ends extends_conjunction rest
        → 4 * length ts + 2 < f
        → parse_and_expression lib f (ts ++ rest) ≡ ok (e, rest)
    Conjunction-lem zero ts rest e g h l = absurd (omega arith)
    Conjunction-lem (suc f) ts rest e (Conjunction.conjunction {left} us ws g t) h l =
        rw
          (
            append_assoc us ws rest,
            Relation-lem f us (ws ++ rest) left g (Ands-end_relation lib ws rest t h)
                (omega (arith, l, longer us ws)),
          )
          (Ands-lem f ws rest left e t h (omega (arith, l, longer us ws)))

    Ors-lem :
        (f : ℕ) (ts rest : List Token) (left e : Expression)
        → Ors lib left ts e
        → Ends extends_expression rest
        → 4 * length ts < f
        → or_loop lib f left (ts ++ rest) ≡ ok (e, rest)
    Ors-lem zero ts rest left e g h l = absurd (omega arith)
    Ors-lem (suc f) ts rest left e Ors.no_or h l = no_or_step lib f rest left h
    Ors-lem (suc f) ts rest left e (Ors.or_then {right} {op} us ws k g t) h l =
        or_step lib f op us ws rest left right k (
          Conjunction-lem f us (ws ++ rest) right g (Ors-end_conjunction lib ws rest t h)
            (omega (arith, l, longer us ws)))
        ∙ Ors-lem f ws rest _ e t h (omega (arith, l, longer us ws))

    logical-lem :
        (f : ℕ) (ts rest : List Token) (e : Expression)
        → Disjunction lib ts e
        → Ends extends_expression rest
        → 4 * length ts + 3 < f
        → parse_logical lib f (ts ++ rest) ≡ ok (e, rest)
    logical-lem zero ts rest e g h l = absurd (omega arith)
    logical-lem (suc f) ts rest e (Disjunction.disjunction {left} us ws g t) h l =
        rw
          (
            append_assoc us ws rest,
            Conjunction-lem f us (ws ++ rest) left g (Ors-end_conjunction lib ws rest t h)
                (omega (arith, l, longer us ws)),
          )
          (Ors-lem f ws rest left e t h (omega (arith, l, longer us ws)))

  -- Whatever the grammar derives (OR weaker than AND, AND weaker than comparisons and IS [NOT]
  -- NULL, all to the left) is read by `parse_logical_expression` as the tree of the derivation, if
  -- a token follows that cannot go on with an expression.
  pub parse_logical_expression-Disjunction :
      (ts rest : List Token) (e : Expression)
      → Disjunction lib ts e
      → Ends extends_expression rest
      → parse_logical_expression lib (ts ++ rest) ≡ ok (e, rest)
  unfolding parse_logical_expression
  parse_logical_expression-Disjunction ts rest e g h =
      logical-lem _ ts rest e g h (omega (arith, longer ts rest))
