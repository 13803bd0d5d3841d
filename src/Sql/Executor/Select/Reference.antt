-- ===== src/Sql/Executor/Select/Reference.antt =====
-- src/sql/executor.cpp: SELECT as a filter and a projection.
use lettydb.Common.{
  ℕ, zero, suc, ◌<◌, ◌≡◌, refl, ap, List, [], ◌∷◌, Bool, true, false, Option, none, some,
  if◌then◌else◌, length, arith,
}
use lettydb.Sql.Ast.{Expression, SelectColumn, SelectStatement}
use lettydb.Storage.Tuple.{Value}
use lettydb.Catalog.{Column}
use lettydb.Sql.Executor.Names.{NamedAt, NamedAt-find, column_at}
use lettydb.Sql.Executor.{Result, ok, Machine, get_value, tuple_matches_where, project_tuple}
use lettydb.Sql.Executor.Where.{Conforms, WellTyped, three_valued, is_true, value_at}
use lettydb.Sql.Executor.Where.Logic.{evaluate_where_clause-three_valued}
use lettydb.Sql.Executor.Select.{
  Pick, all_columns, column_name_of, header_of, pick_columns, select_columns, indexes, headers,
  select_rows, execute_select,
}

-- The rows of a table.
abbrev pub AllConform : List Column → List (List Value) → Type 0
AllConform columns [] = Unit {0}
AllConform columns (t ∷ ts) = Conforms columns t × AllConform columns ts

abbrev pub cells : List Value → List ℕ → List Value
cells t [] = []
cells t (i ∷ is) = value_at t (some i) ∷ cells t is

-- A selected column: the name that it is asked for by, and its header.
pub data AsksFor : Expression → List ℕ → Type 0 where
  plain : {name : List ℕ} → AsksFor (Expression.identifier name) name
  member : {table name : List ℕ} → AsksFor (Expression.qualified table name) name

pub data Header : List ℕ → List ℕ → List ℕ → Type 0 where
  own_name : {name : List ℕ} → Header [] name name
  renamed : {c : ℕ} {cs name : List ℕ} → Header (c ∷ cs) name (c ∷ cs)

-- The headers and the positions of the columns of a list.
pub data Asked (columns : List Column) : List SelectColumn → List (List ℕ) → List ℕ → Type 0 where
  nothing : Asked columns [] [] []
  one_more :
      {s : SelectColumn} {ss : List SelectColumn} {name header : List ℕ} {c : Column} {i : ℕ}
      {headings : List (List ℕ)} {is : List ℕ}
      → AsksFor s.expression name
      → Header s.alias name header
      → NamedAt columns name i c
      → Asked columns ss headings is
      → Asked columns (s ∷ ss) (header ∷ headings) (i ∷ is)

abbrev pub names : List Column → List (List ℕ)
names [] = []
names (c ∷ cs) = c.name ∷ names cs

-- The headers of a SELECT, and what it keeps of a row.
pub data Selection (columns : List Column) (node : SelectStatement)
    : List (List ℕ) → (List Value → List Value) → Type 0 where
  everything : node.is_select_all ≡ true → Selection columns node (names columns) (λ t. t)
  listed :
      {headings : List (List ℕ)} {is : List ℕ}
      → node.is_select_all ≡ false
      → Asked columns node.columns headings is
      → Selection columns node headings (λ t. cells t is)

module _ (machine : Machine) (columns : List Column) where
  abbrev pub ClauseFits : Option Expression → Type 0
  ClauseFits none = Unit {0}
  ClauseFits (some e) = WellTyped machine columns e

  -- Whether SQL's logic finds the clause true of a row.
  abbrev pub chosen : (clause : Option Expression) → ClauseFits clause → List Value → Bool
  chosen none w t = true
  chosen (some e) w t = is_true (three_valued machine columns w t)

  -- The rows of which the clause is true, in their order, each cut to what is asked for.
  abbrev pub filtered :
      (clause : Option Expression)
      → ClauseFits clause
      → (List Value → List Value)
      → List (List Value)
      → List (List Value)
  filtered clause w cut [] = []
  filtered clause w cut (t ∷ ts) =
      if chosen clause w t then cut t ∷ filtered clause w cut ts else filtered clause w cut ts

get_value-Conforms :
    (columns : List Column) (t : List Value) (i : ℕ)
    → Conforms columns t
    → i < length columns
    → get_value t i ≡ ok (value_at t (some i))
unfolding get_value
get_value-Conforms [] t i c l = absurd (omega arith)
get_value-Conforms (d ∷ cs) [] i c l = absurd c
get_value-Conforms (d ∷ cs) (v ∷ vs) zero c l = refl
get_value-Conforms (d ∷ cs) (v ∷ vs) (suc i) c l = get_value-Conforms cs vs i c.1 (omega (arith, l))

column_at_below :
    (columns : List Column) (i : ℕ) (c : Column) → column_at columns i ≡ some c → i < length columns
column_at_below [] i c e = absurd (ground arith)
column_at_below (d ∷ cs) zero c e = omega arith
column_at_below (d ∷ cs) (suc i) c e = omega (arith, column_at_below cs i c e)

-- What `project_tuple` keeps of the rows of the table.
abbrev Projects : List Column → List ℕ → (List Value → List Value) → Type 0
Projects columns is cut = (t : List Value) → Conforms columns t → project_tuple t is ≡ ok (cut t)

Asked-Projects :
    {columns : List Column} {ss : List SelectColumn} {headings : List (List ℕ)} {is : List ℕ}
    → Asked columns ss headings is
    → Projects columns is (λ t. cells t is)
unfolding project_tuple
Asked-Projects nothing t c = refl
Asked-Projects {columns} (one_more {i = i} {is = is} a h n rest) t c =
    let below = column_at_below columns i _ (NamedAt-find n).1 in
    rw (get_value-Conforms columns t i c below, Asked-Projects rest t c) refl

AsksFor-column_name_of :
    {e : Expression} {name : List ℕ} → AsksFor e name → column_name_of e ≡ ok name
unfolding column_name_of
AsksFor-column_name_of plain = refl
AsksFor-column_name_of member = refl

Header-header_of : {alias name h : List ℕ} → Header alias name h → header_of alias name ≡ h
Header-header_of own_name = refl
Header-header_of renamed = refl

-- What `select_columns` returns.
record Picked (headings : List (List ℕ)) (is : List ℕ) (r : Result (List Pick)) : Type 0 where
  picks : List Pick
  returned : r ≡ ok picks
  same_headers : headers picks ≡ headings
  same_indexes : indexes picks ≡ is

Asked-Picked :
    {columns : List Column} {ss : List SelectColumn} {headings : List (List ℕ)} {is : List ℕ}
    → Asked columns ss headings is
    → Picked headings is (pick_columns ss columns)
unfolding pick_columns
Asked-Picked nothing = record {
  picks = [];
  returned = refl;
  same_headers = refl;
  same_indexes = refl;
}
Asked-Picked {columns} (one_more {s} {ss} {name} {header} {c} {i} {headings} {is} a h n rest) =
    let later = Asked-Picked rest in
    record {
      picks = record { header = header; index = i } ∷ later.picks;
      returned =
          rw (AsksFor-column_name_of a, Header-header_of h, (NamedAt-find n).0, later.returned)
            refl;
      same_headers = ap (λ hs. header ∷ hs) later.same_headers;
      same_indexes = ap (λ js. i ∷ js) later.same_indexes;
    }

all_columns-headers : (first : ℕ) (cs : List Column) → headers (all_columns first cs) ≡ names cs
unfolding all_columns
all_columns-headers first [] = refl
all_columns-headers first (c ∷ cs) = ap (λ hs. c.name ∷ hs) (all_columns-headers (suc first) cs)

project_tuple_shift :
    (v : Value) (t : List Value) (first : ℕ) (cs : List Column)
    → project_tuple (v ∷ t) (indexes (all_columns (suc first) cs))
      ≡ project_tuple t (indexes (all_columns first cs))
unfolding all_columns project_tuple get_value
project_tuple_shift v t first [] = refl
project_tuple_shift v t first (c ∷ cs) = rw (project_tuple_shift v t (suc first) cs) refl

all_columns-Projects :
    (columns : List Column) → Projects columns (indexes (all_columns 0 columns)) (λ t. t)
unfolding all_columns project_tuple get_value
all_columns-Projects [] [] c = refl
all_columns-Projects [] (v ∷ vs) c = absurd c
all_columns-Projects (d ∷ cs) [] c = absurd c
all_columns-Projects (d ∷ cs) (v ∷ vs) c =
    rw (project_tuple_shift v vs 0 cs, all_columns-Projects cs vs c.1) refl

kept_or_not {ℓ} :
    {A : Type ℓ} (b : Bool) (x y : A) → (if b then ok x else ok y) ≡ ok (if b then x else y)
kept_or_not true x y = refl
kept_or_not false x y = refl

module _ (machine : Machine)
    (asym : (x y : ℕ) → machine.double_lt x y ≡ true → machine.double_lt y x ≡ false)
    (columns : List Column) where
  tuple_matches_where-chosen :
      (clause : Option Expression) (w : ClauseFits machine columns clause) (t : List Value)
      → Conforms columns t
      → tuple_matches_where machine clause t columns ≡ ok (chosen machine columns clause w t)
  unfolding tuple_matches_where
  tuple_matches_where-chosen none w t c = refl
  tuple_matches_where-chosen (some e) w t c =
      evaluate_where_clause-three_valued machine asym columns t c w

  select_rows-filtered :
      (clause : Option Expression) (w : ClauseFits machine columns clause) (is : List ℕ)
      (cut : List Value → List Value) (ts : List (List Value))
      → Projects columns is cut
      → AllConform columns ts
      → select_rows machine clause is columns ts ≡ ok (filtered machine columns clause w cut ts)
  unfolding select_rows
  select_rows-filtered clause w is cut [] p a = refl
  select_rows-filtered clause w is cut (t ∷ ts) p a =
      rw
        (
          tuple_matches_where-chosen clause w t a.0,
          select_rows-filtered clause w is cut ts p a.1,
          p t a.0,
        )
        (kept_or_not (chosen machine columns clause w t)
          (cut t ∷ filtered machine columns clause w cut ts)
          (filtered machine columns clause w cut ts))

  -- The rows under the headers, from what `select_columns` returns.
  execute_select-Picked :
      (node : SelectStatement) (w : ClauseFits machine columns node.where_clause)
      (headings : List (List ℕ)) (is : List ℕ) (cut : List Value → List Value)
      (scanned : List (List Value))
      → Picked headings is (select_columns node columns)
      → Projects columns is cut
      → AllConform columns scanned
      → execute_select machine node columns scanned
        ≡ ok (headings, filtered machine columns node.where_clause w cut scanned)
  unfolding execute_select
  execute_select-Picked node w headings is cut scanned k p a =
      rw
        (
          k.returned,
          k.same_headers,
          k.same_indexes,
          select_rows-filtered node.where_clause w is cut scanned p a,
        )
        refl

  -- If `<` of doubles is asymmetric, a SELECT asks for all columns or for columns of the table by
  -- name, its condition has types that fit and the scanned rows are those of the table, then
  -- `execute_select` returns, in the order of the scan, the rows of which the condition is true in
  -- the logic of SQL, each whole or cut to the columns that were asked for, under the names of the
  -- columns or their aliases.
  pub execute_select-filtered :
      (node : SelectStatement) {headings : List (List ℕ)} {cut : List Value → List Value}
      (w : ClauseFits machine columns node.where_clause) (scanned : List (List Value))
      → Selection columns node headings cut
      → AllConform columns scanned
      → execute_select machine node columns scanned
        ≡ ok (headings, filtered machine columns node.where_clause w cut scanned)
  unfolding select_columns
  execute_select-filtered node w scanned (everything h) a =
      let all : Picked (names columns) (indexes (all_columns 0 columns))
          (select_columns node columns) =
        record {
          picks = all_columns 0 columns;
          returned = rw (h) refl;
          same_headers = all_columns-headers 0 columns;
          same_indexes = refl;
        } in
      execute_select-Picked node w (names columns) _ (λ t. t) scanned all
        (all_columns-Projects columns) a
  execute_select-filtered node w scanned (listed {headings} {is} h asked) a =
      let some_columns : Picked headings is (select_columns node columns) =
        rw (h) (Asked-Picked asked) in
      execute_select-Picked node w headings is (λ t. cells t is) scanned some_columns
        (Asked-Projects asked) a
