-- ===== src/Sql/Executor/Names.antt =====
-- What names and literals of src/sql/executor.cpp stand for, apart from its helpers.
use lettydb.Common.{
  ℕ, zero, suc, ℤ, pos, negsuc, ◌<◌, ◌^◌, ◌≡◌, ◌≢◌, refl, ap, List, [], ◌∷◌, Bool, false, Option,
  none, some, arith, Bool-cases, inl, inr,
}
use mathlib.Core.Option.{map}
use lettydb.Sql.Lexer.{same_text}
use lettydb.Sql.Lexer.Keywords.{same_text-eq, same_text-true}
use lettydb.Sql.Ast.{SqlDate, SqlTimestamp, Literal}
use lettydb.Storage.Tuple.{Value, word_int, int_word}
use lettydb.Catalog.{Column}
use lettydb.Sql.Executor.{Machine, literal_to_value, find_column_index}

-- The first column of a name, with its position.
pub data NamedAt : List Column → List ℕ → ℕ → Column → Type 0 where
  here : {c : Column} {cs : List Column} {name : List ℕ} → c.name ≡ name → NamedAt (c ∷ cs) name 0 c
  there :
      {c d : Column} {cs : List Column} {name : List ℕ} {i : ℕ}
      → c.name ≢ name
      → NamedAt cs name i d
      → NamedAt (c ∷ cs) name (suc i) d

abbrev pub column_at : List Column → ℕ → Option Column
column_at [] i = none
column_at (c ∷ cs) zero = some c
column_at (c ∷ cs) (suc i) = column_at cs i

same_text-false : (x y : List ℕ) → x ≢ y → same_text x y ≡ false
same_text-false x y ne = elim (Bool-cases (same_text x y)) [
  | inl h ↦ absurd (ne (same_text-eq x y h))
  | inr h ↦ h
]

pub NamedAt-find :
    {columns : List Column} {name : List ℕ} {i : ℕ} {c : Column}
    → NamedAt columns name i c
    → (find_column_index columns name ≡ some i) × (column_at columns i ≡ some c)
unfolding find_column_index
NamedAt-find (here {c} {cs} {name} e) = rw (same_text-true c.name name e) (refl, refl)
NamedAt-find (there {c} {d} {cs} {name} {i} ne n) =
    let (found, at) = NamedAt-find n in rw (same_text-false c.name name ne, found) (refl, at)

shifted :
    (x : Option ℕ) (i : ℕ) → map (λ k. suc k) x ≡ some i → (j : ℕ) × (x ≡ some j) × (i ≡ suc j)
shifted none i e = absurd (ground arith)
shifted (some j) i e = (j, refl, ground arith)

pub find-NamedAt :
    (columns : List Column) (name : List ℕ) (i : ℕ)
    → find_column_index columns name ≡ some i
    → (c : Column) × NamedAt columns name i c
unfolding find_column_index
find-NamedAt [] name i e = absurd (ground arith)
find-NamedAt (c ∷ cs) name i e = elim (Bool-cases (same_text c.name name)) [
  | inl h ↦ let z : i ≡ 0 = ground (arith, e, h) in rw (z) (c, here (same_text-eq c.name name h))
  | inr h ↦
      let (j, found, at) = shifted (find_column_index cs name) i (rw (h) at e) in
      let (d, n) = find-NamedAt cs name j found in
      let ne : c.name ≢ name = λ q. ground (arith, h, same_text-true c.name name q) in
      rw (at) (d, there ne n)
]

abbrev pub InInt32 : ℤ → Type 0
InInt32 (pos n) = n < 2 ^ 31
InInt32 (negsuc n) = n < 2 ^ 31

-- The value that a literal is written for. An integer has one if it fits an int32_t.
pub data Denotes (machine : Machine) : Literal → Value → Type 0 where
  null : Denotes machine Literal.null_value Value.null_value
  integer : (n : ℤ) → InInt32 n → Denotes machine (Literal.integer n) (Value.integer n)
  double : (d : ℕ) → Denotes machine (Literal.double d) (Value.double d)
  text : (s : List ℕ) → Denotes machine (Literal.text s) (Value.text s)
  boolean : (b : Bool) → Denotes machine (Literal.boolean b) (Value.boolean b)
  date : (d : SqlDate) → Denotes machine (Literal.date d) (Value.text (machine.snprintf_date d))
  timestamp :
      (t : SqlTimestamp)
      → Denotes machine (Literal.timestamp t) (Value.text (machine.snprintf_timestamp t))

fits-int32 : (n : ℤ) → InInt32 n → word_int (int_word n) ≡ n
unfolding word_int int_word
fits-int32 (pos n) h = ground arith
fits-int32 (negsuc n) h = ground arith

pub Denotes-literal_to_value :
    (machine : Machine) {v : Literal} {x : Value}
    → Denotes machine v x
    → literal_to_value machine v ≡ x
unfolding literal_to_value
Denotes-literal_to_value machine Denotes.null = refl
Denotes-literal_to_value machine (Denotes.integer n h) = ap (λ k. Value.integer k) (fits-int32 n h)
Denotes-literal_to_value machine (Denotes.double d) = refl
Denotes-literal_to_value machine (Denotes.text s) = refl
Denotes-literal_to_value machine (Denotes.boolean b) = refl
Denotes-literal_to_value machine (Denotes.date d) = refl
Denotes-literal_to_value machine (Denotes.timestamp t) = refl
