-- ===== src/Sql/Executor/Where/Logic.antt =====
-- src/sql/executor.cpp: evaluate_where_clause is SQL's three-valued logic with unknown as false.
use lettydb.Common.{
  ℕ, zero, suc, ◌≡◌, inl, inr, refl, ap, subst, List, [], ◌∷◌, Bool, true, false, ◌||◌, Option, not,
  none, some, if◌then◌else◌, arith,
}
use lettydb.Sql.Lexer.{same_text}
use lettydb.Sql.Parser.Expressions.{or_text, and_text}
use lettydb.Sql.Ast.{Expression}
use lettydb.Storage.Tuple.{DataType, Value}
use lettydb.Catalog.{Column}
use lettydb.Sql.Executor.Names.{NamedAt, NamedAt-find, column_at, Denotes-literal_to_value}
use lettydb.Sql.Executor.{
  literal_to_value, ok, Machine, text_lt, three_way, is_null_value, double_of, compare_numbers,
  compare_values, operator_result, apply_comparison, find_column_index, get_value, column_value,
  evaluate_expression, condition_value, evaluate_where_clause,
}
use lettydb.Sql.Executor.Where.{
  Kind, numeric, textual, truth, kind_of, HasKind, MayHaveKind, Fits, Conforms, Operator, equal,
  unequal, below, at_most, above, at_least, operator_text, earlier, null_three, Operand, WellTyped,
  less, holds, compare_three, and_three, or_three, value_at, value_of, truth_of_value, three_valued,
  is_true,
}

text_lt-earlier : (x y : List ℕ) → text_lt x y ≡ earlier x y
unfolding text_lt
text_lt-earlier [] [] = refl
text_lt-earlier [] (y ∷ ys) = refl
text_lt-earlier (x ∷ xs) [] = refl
text_lt-earlier (x ∷ xs) (y ∷ ys) = ground (arith, text_lt-earlier xs ys)

earlier_asym : (x y : List ℕ) → earlier x y ≡ true → earlier y x ≡ false
earlier_asym [] [] h = refl
earlier_asym [] (y ∷ ys) h = refl
earlier_asym (x ∷ xs) [] h = cc
earlier_asym (x ∷ xs) (y ∷ ys) h = ground (arith, earlier_asym xs ys)

some-eq : {c d : Column} → some c ≡ some d → c ≡ d
some-eq h = cc

Fits-MayHaveKind : (c : Column) (v : Value) → Fits c v → MayHaveKind (kind_of c.data_type) v
Fits-MayHaveKind c v (inl (n, _)) = inl n
Fits-MayHaveKind c v (inr h) = inr h

-- The value of a column that is there.
value_at-Conforms :
    (columns : List Column) (tuple : List Value) (i : ℕ) (c : Column)
    → Conforms columns tuple
    → column_at columns i ≡ some c
    → (get_value tuple i ≡ ok (value_at tuple (some i))) × Fits c (value_at tuple (some i))
unfolding get_value
value_at-Conforms [] tuple i c h e = cc
value_at-Conforms (d ∷ cs) [] i c h e = absurd h
value_at-Conforms (d ∷ cs) (v ∷ vs) zero c h e = (refl, subst (λ x. Fits x v) (some-eq e) h.0)
value_at-Conforms (d ∷ cs) (v ∷ vs) (suc i) c h e = value_at-Conforms cs vs i c h.1 e

-- The result of an operator on the three-way comparison.
operator_result-holds :
    (op : Operator) (less greater : Bool)
    → (less ≡ true → greater ≡ false)
    → operator_result (operator_text op) (three_way less greater) ≡ ok (holds op less greater)
unfolding operator_result three_way
operator_result-holds op true true a = cc (a refl)
operator_result-holds equal true false a = refl
operator_result-holds unequal true false a = refl
operator_result-holds below true false a = refl
operator_result-holds at_most true false a = refl
operator_result-holds above true false a = refl
operator_result-holds at_least true false a = refl
operator_result-holds equal false true a = refl
operator_result-holds unequal false true a = refl
operator_result-holds below false true a = refl
operator_result-holds at_most false true a = refl
operator_result-holds above false true a = refl
operator_result-holds at_least false true a = refl
operator_result-holds equal false false a = refl
operator_result-holds unequal false false a = refl
operator_result-holds below false false a = refl
operator_result-holds at_most false false a = refl
operator_result-holds above false false a = refl
operator_result-holds at_least false false a = refl

and-three :
    (x y : Option Bool)
    → (if is_true x then ok (is_true y) else ok false) ≡ ok (is_true (and_three x y))
and-three (some true) y = refl
and-three (some false) y = refl
and-three none (some true) = refl
and-three none (some false) = refl
and-three none none = refl

or-three :
    (x y : Option Bool)
    → (if is_true x then ok true else ok (is_true y)) ≡ ok (is_true (or_three x y))
or-three (some true) y = refl
or-three (some false) y = refl
or-three none (some true) = refl
or-three none (some false) = refl
or-three none none = refl

not_logical :
    (op : Operator)
    → (same_text (operator_text op) and_text ≡ false)
      × (same_text (operator_text op) or_text ≡ false)
not_logical equal = (refl, refl)
not_logical unequal = (refl, refl)
not_logical below = (refl, refl)
not_logical at_most = (refl, refl)
not_logical above = (refl, refl)
not_logical at_least = (refl, refl)

module _ (machine : Machine)
    (asym : (x y : ℕ) → machine.double_lt x y ≡ true → machine.double_lt y x ≡ false) where
  less_asym :
      (k : Kind) (x y : Value)
      → HasKind k x
      → HasKind k y
      → less machine x y ≡ true
      → less machine y x ≡ false
  unfolding less
  less_asym textual (Value.text x) (Value.text y) p q h = earlier_asym x y h
  less_asym truth (Value.boolean x) (Value.boolean y) p q h = ground arith
  less_asym numeric (Value.integer x) (Value.integer y) p q h = asym _ _ h
  less_asym numeric (Value.integer x) (Value.double y) p q h = asym _ _ h
  less_asym numeric (Value.double x) (Value.integer y) p q h = asym _ _ h
  less_asym numeric (Value.double x) (Value.double y) p q h = asym _ _ h
  less_asym k x y p q h = ground arith

  compare_values-less :
      (k : Kind) (x y : Value)
      → HasKind k x
      → HasKind k y
      → compare_values machine x y ≡ ok (three_way (less machine x y) (less machine y x))
  unfolding compare_values compare_numbers double_of less
  compare_values-less numeric (Value.integer x) (Value.integer y) h g = refl
  compare_values-less numeric (Value.integer x) (Value.double y) h g = refl
  compare_values-less numeric (Value.double x) (Value.integer y) h g = refl
  compare_values-less numeric (Value.double x) (Value.double y) h g = refl
  compare_values-less textual (Value.text x) (Value.text y) h g =
      rw (text_lt-earlier x y, text_lt-earlier y x) refl
  compare_values-less truth (Value.boolean x) (Value.boolean y) h g = refl
  compare_values-less k x y h g = ground arith

  present_comparison :
      (op : Operator) (k : Kind) (x y : Value)
      → HasKind k x
      → HasKind k y
      → (is_null_value x || is_null_value y) ≡ false
      → apply_comparison machine x (operator_text op) y
        ≡ ok (holds op (less machine x y) (less machine y x))
  unfolding apply_comparison
  present_comparison op k x y p q h =
      rw (h, compare_values-less k x y p q)
        (operator_result-holds op (less machine x y) (less machine y x) (less_asym k x y p q))

  HasKind-present : (k : Kind) (x : Value) → HasKind k x → is_null_value x ≡ false
  HasKind-present numeric (Value.integer n) h = refl
  HasKind-present numeric (Value.double d) h = refl
  HasKind-present textual (Value.text t) h = refl
  HasKind-present truth (Value.boolean b) h = refl
  HasKind-present k x h = ground arith

  compare_three-present :
      (op : Operator) (x y : Value)
      → is_null_value x ≡ false
      → is_null_value y ≡ false
      → compare_three machine op x y ≡ some (holds op (less machine x y) (less machine y x))
  compare_three-present op x y h g = ground arith

  null_left :
      (op : Operator) (y : Value)
      → apply_comparison machine Value.null_value (operator_text op) y ≡ ok false
  unfolding apply_comparison
  null_left op y = refl

  null_right :
      (op : Operator) (x : Value)
      → (apply_comparison machine x (operator_text op) Value.null_value ≡ ok false)
        × (compare_three machine op x Value.null_value ≡ none)
  unfolding apply_comparison
  null_right op x = (ground arith, ground arith)

  apply_comparison-three :
      (op : Operator) (k : Kind) (x y : Value)
      → MayHaveKind k x
      → MayHaveKind k y
      → apply_comparison machine x (operator_text op) y
        ≡ ok (is_true (compare_three machine op x y))
  apply_comparison-three op k x y (inl e) q = rw (e) (null_left op y)
  apply_comparison-three op k x y (inr p) (inl e) = rw (e, (null_right op x).1) (null_right op x).0
  apply_comparison-three op k x y (inr p) (inr q) =
      let here = HasKind-present k x p in
      let there = HasKind-present k y q in
      rw (compare_three-present op x y here there)
        (present_comparison op k x y p q (ground (arith, here, there)))

  module _ (columns : List Column) (tuple : List Value) (row : Conforms columns tuple) where
    named_value :
        {name : List ℕ} {i : ℕ} {c : Column}
        → NamedAt columns name i c
        → (column_value (find_column_index columns name) tuple ≡ ok (value_at tuple (some i)))
          × Fits c (value_at tuple (some i))
    unfolding column_value
    named_value {name} {i} {c} n =
        let (found, at) = NamedAt-find n in rw (found) (value_at-Conforms columns tuple i c row at)

    Operand-value :
        {e : Expression} {k : Kind} (x : Operand machine columns e k)
        → (evaluate_expression machine e tuple columns ≡ ok (value_of machine columns x tuple))
          × MayHaveKind k (value_of machine columns x tuple)
    unfolding evaluate_expression
    Operand-value (Operand.constant d h) = (ap (λ v. ok v) (Denotes-literal_to_value machine d), h)
    Operand-value (Operand.column {c = c} n) =
        let (found, fits) = named_value n in (found, Fits-MayHaveKind c _ fits)
    Operand-value (Operand.member {c = c} n) =
        let (found, fits) = named_value n in (found, Fits-MayHaveKind c _ fits)

    null_test_value :
        (is_not : Bool) (v : Value)
        → ok (if is_not then not (is_null_value v) else is_null_value v)
          ≡ ok (is_true (null_three machine columns is_not v))
    null_test_value is_not v = ground arith

    -- A BOOLEAN column that is NOT NULL.
    flag_value :
        (v : Value) (c : Column)
        → Fits c v
        → c.data_type ≡ DataType.boolean_type
        → c.nullable ≡ false
        → condition_value v ≡ ok (is_true (truth_of_value v))
    unfolding condition_value
    flag_value v c (inl (e, can_be_null)) t n = cc
    flag_value v c (inr h) t n = boolean_value v (subst (λ k. HasKind (kind_of k) v) t h)
      where
        boolean_value :
            (w : Value) → HasKind truth w → condition_value w ≡ ok (is_true (truth_of_value w))
        boolean_value (Value.boolean b) g = refl
        boolean_value w g = ground arith

    -- If `<` of doubles is asymmetric, a row has values of the types of its columns, with NULL only
    -- where the column allows it, and a condition names columns that are there, has integer
    -- literals that fit an int32_t, compares operands of one kind by a known operator and uses
    -- alone only TRUE, FALSE and columns that are BOOLEAN and NOT NULL, then
    -- `evaluate_where_clause` throws nothing and returns whether the condition is true in the
    -- three-valued logic of SQL, where a comparison with NULL is unknown.
    pub evaluate_where_clause-three_valued :
        {e : Expression} (w : WellTyped machine columns e)
        → evaluate_where_clause machine e tuple columns
          ≡ ok (is_true (three_valued machine columns w tuple))
    unfolding evaluate_where_clause evaluate_expression literal_to_value condition_value
    evaluate_where_clause-three_valued (WellTyped.both g h) =
        rw (evaluate_where_clause-three_valued g, evaluate_where_clause-three_valued h)
          (and-three (three_valued machine columns g tuple) _)
    evaluate_where_clause-three_valued (WellTyped.either g h) =
        rw (evaluate_where_clause-three_valued g, evaluate_where_clause-three_valued h)
          (or-three (three_valued machine columns g tuple) _)
    evaluate_where_clause-three_valued (WellTyped.compare {l} {r} {k} op g h) =
        let (not_and, not_or) = not_logical op in
        rw (not_and, not_or, (Operand-value g).0, (Operand-value h).0)
          (apply_comparison-three op k _ _ (Operand-value g).1 (Operand-value h).1)
    evaluate_where_clause-three_valued (WellTyped.null_test {is_not = is_not} g) =
        rw ((Operand-value g).0) (null_test_value is_not (value_of machine columns g tuple))
    evaluate_where_clause-three_valued WellTyped.constant = refl
    evaluate_where_clause-three_valued (WellTyped.flag {c = c} n t h) =
        let (found, fits) = named_value n in rw (found) (flag_value _ c fits t h)
    evaluate_where_clause-three_valued (WellTyped.member_flag {c = c} n t h) =
        let (found, fits) = named_value n in rw (found) (flag_value _ c fits t h)
