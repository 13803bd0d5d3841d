-- ===== src/Sql/Lexer/Shapes.antt =====
-- The characters and the date formats of src/sql/lexer.cpp and src/sql/utils.cpp.
use lettydb.Sql.Lexer.Keywords.{ascii}
use lettydb.Common.{
  ℕ, ◌≡◌, refl, List, [], ◌∷◌, Bool, true, false, ◌&&◌, ◌||◌, Option, none, some, arith, ◌==◌, leb,
  if◌then◌else◌,
}
use lettydb.Sql.Lexer.{matches, is_date_literal, is_timestamp_literal}

-- The characters of numbers and of words.
abbrev pub decimal : ℕ → Bool
decimal c = leb 48 c && leb c 57

abbrev pub letter : ℕ → Bool
letter c = (leb 65 c && leb c 90) || (leb 97 c && leb c 122)

abbrev pub word_character : ℕ → Bool
word_character c = letter c || decimal c || c == 95

-- A text of the shape of a template, in which `d` stands for a digit.
abbrev pub Shaped : List ℕ → List ℕ → Type 0
Shaped [] [] = Unit {0}
Shaped [] (c ∷ cs) = ⊥
Shaped (x ∷ xs) [] = ⊥
Shaped (x ∷ xs) (c ∷ cs) = ((if x == 100 then decimal c else c == x) ≡ true) × Shaped xs cs

abbrev pub IsDate : List ℕ → Type 0
IsDate s = Shaped (ascii "dddd-dd-dd") s

abbrev pub IsTimestamp : List ℕ → Type 0
IsTimestamp s = Shaped (ascii "dddd-dd-dd dd:dd:dd") s

abbrev template : List (Option ℕ) → List ℕ
template [] = []
template (none ∷ xs) = 100 ∷ template xs
template (some x ∷ xs) = x ∷ template xs

abbrev without_d : List (Option ℕ) → Bool
without_d [] = true
without_d (none ∷ xs) = without_d xs
without_d (some x ∷ xs) = if x == 100 then false else without_d xs

matches-Shaped :
    (r : List (Option ℕ)) (s : List ℕ)
    → without_d r ≡ true
    → (matches r s ≡ true → Shaped (template r) s) × (Shaped (template r) s → matches r s ≡ true)
unfolding matches
matches-Shaped [] [] w = (λ h. tt, λ h. refl)
matches-Shaped [] (c ∷ cs) w = (λ h. absurd (ground arith), λ h. absurd h)
matches-Shaped (none ∷ xs) [] w = (λ h. absurd (ground arith), λ h. absurd h)
matches-Shaped (some x ∷ xs) [] w = (λ h. absurd (ground arith), λ h. absurd h)
matches-Shaped (none ∷ xs) (c ∷ cs) w =
    let ih = matches-Shaped xs cs w in
    (λ h. (ground (arith, h), ih.0 (ground (arith, h))), λ h. ground (arith, h.0, ih.1 h.1))
matches-Shaped (some x ∷ xs) (c ∷ cs) w =
    let ih = matches-Shaped xs cs (ground (arith, w)) in
    (λ h. (ground (arith, h, w), ih.0 (ground (arith, h))), λ h. ground (arith, h.0, w, ih.1 h.1))

pub is_date_literal-IsDate :
    (s : List ℕ) → (is_date_literal s ≡ true → IsDate s) × (IsDate s → is_date_literal s ≡ true)
unfolding is_date_literal
is_date_literal-IsDate s = matches-Shaped _ s refl

pub is_timestamp_literal-IsTimestamp :
    (s : List ℕ)
    → (is_timestamp_literal s ≡ true → IsTimestamp s)
      × (IsTimestamp s → is_timestamp_literal s ≡ true)
unfolding is_timestamp_literal
is_timestamp_literal-IsTimestamp s = matches-Shaped _ s refl
