-- ===== src/Sql/Lexer/Progress.antt =====
-- `tokenize` of src/sql/lexer.cpp ends, with the token of the end of the input last.
use lettydb.Common.{
  ℕ, zero, suc, ◌≤◌, ◌<◌, ◌≡◌, ◌⊎◌, inl, inr, refl, List, [], ◌∷◌, Bool, true, false, Option, none,
  some, arith, ◌==◌, length, Bool-cases, not,
}
use lettydb.Sql.Token.{TokenType, Token}
use lettydb.Sql.Lexer.{
  is_digit, is_word, take_while, make_key_or_identifier, make_fraction, make_numbers, close_string,
  make_string, with_equals, make_operator, single_kind, is_space, token_at, next_token, is_eof,
  tokenize_fuel, tokenize,
}

length-take_while : (p : ℕ → Bool) (cs : List ℕ) → length (take_while p cs).1 ≤ length cs
unfolding take_while
length-take_while p [] = omega arith
length-take_while p (c ∷ cs) = ground (arith, length-take_while p cs)

length-close_string : (value rest : List ℕ) → length (close_string value rest).1 ≤ length rest
unfolding close_string
length-close_string value [] = omega arith
length-close_string value (c ∷ rest) = omega arith

length-with_equals :
    (a b : TokenType) (s t rest : List ℕ) → length (with_equals a s b t rest).1 ≤ length rest
unfolding with_equals
length-with_equals a b s t [] = omega arith
length-with_equals a b s t (c ∷ rest) = ground arith

length-make_operator : (c : ℕ) (rest : List ℕ) → length (make_operator c rest).1 ≤ length rest
unfolding make_operator
length-make_operator c rest = ground (
  arith,
  length-with_equals TokenType.ne_token TokenType.unknown (33 ∷ 61 ∷ []) (33 ∷ []) rest,
  length-with_equals TokenType.lte_token TokenType.lt_token (60 ∷ 61 ∷ []) (60 ∷ []) rest,
  length-with_equals TokenType.gte_token TokenType.gt_token (62 ∷ 61 ∷ []) (62 ∷ []) rest,
)

length-make_fraction : (digits rest : List ℕ) → length (make_fraction digits rest).1 ≤ length rest
unfolding make_fraction
length-make_fraction digits [] = omega arith
length-make_fraction digits (c ∷ []) = omega arith
length-make_fraction digits (c ∷ d ∷ rest) = ground (arith, length-take_while is_digit (d ∷ rest))

length-make_numbers :
    (c : ℕ) (rest : List ℕ) → is_digit c ≡ true → length (make_numbers (c ∷ rest)).1 ≤ length rest
unfolding make_numbers take_while
length-make_numbers c rest h = ground (
  arith,
  h,
  length-take_while is_digit rest,
  length-make_fraction (c ∷ (take_while is_digit rest).0) (take_while is_digit rest).1,
)

length-make_key_or_identifier :
    (c : ℕ) (rest : List ℕ)
    → is_word c ≡ true
    → length (make_key_or_identifier (c ∷ rest)).1 ≤ length rest
unfolding make_key_or_identifier take_while
length-make_key_or_identifier c rest h = ground (arith, h, length-take_while is_word rest)

length-make_string : (rest : List ℕ) → length (make_string rest).1 ≤ length rest
unfolding make_string
length-make_string rest =
    let taken = take_while (λ c. not (c == 39)) rest in
    omega (arith, length-take_while (λ c. not (c == 39)) rest, length-close_string taken.0 taken.1)

length-token_at :
    (c : ℕ) (rest : List ℕ) (x : Option TokenType) → length (token_at c rest x).1 ≤ length rest
unfolding token_at
length-token_at c rest (some t) = omega arith
length-token_at c rest none = ground (
  arith,
  length-make_string rest,
  length-make_operator c rest,
  length-make_numbers c rest,
  length-make_key_or_identifier c rest,
)

-- A token takes a character, or the input is at its end.
pub next_token_shorter :
    (input : List ℕ)
    → (is_eof (next_token input).0.kind ≡ true) ⊎ (length (next_token input).1 < length input)
unfolding next_token is_eof
next_token_shorter [] = inl refl
next_token_shorter (c ∷ rest) = elim (Bool-cases (is_space c)) [
  | inl h ↦ elim (next_token_shorter rest) [
    | inl e ↦ inl (rw (h) e)
    | inr l ↦ inr (rw (h) (omega (arith, l)))
  ]
  | inr h ↦ inr (rw (h) (omega (arith, length-token_at c rest (single_kind c))))
]

-- A list of tokens that ends with that of the end of the input, and has no other one.
abbrev pub Complete : List Token → Type 0
Complete [] = ⊥
Complete (t ∷ []) = is_eof t.kind ≡ true
Complete (t ∷ u ∷ ts) = (is_eof t.kind ≡ false) × Complete (u ∷ ts)

Complete-cons :
    (t : Token) (ts : List Token) → is_eof t.kind ≡ false → Complete ts → Complete (t ∷ ts)
Complete-cons t [] h c = absurd c
Complete-cons t (u ∷ us) h c = (h, c)

tokenize_fuel-Complete :
    (fuel : ℕ) (input : List ℕ)
    → length input < fuel
    → (tokens : List Token) × (tokenize_fuel fuel input ≡ some tokens) × Complete tokens
unfolding tokenize_fuel
tokenize_fuel-Complete zero input h = absurd (ground arith)
tokenize_fuel-Complete (suc fuel) input h =
    let r = next_token input in
    elim (Bool-cases (is_eof r.0.kind)) [
      | inl e ↦ (r.0 ∷ [], rw (e) refl, e)
      | inr n ↦
          let shorter : length r.1 < length input = ground (arith, n, next_token_shorter input) in
          let (tokens, found, complete) =
            tokenize_fuel-Complete fuel r.1 (omega (arith, h, shorter)) in
          (r.0 ∷ tokens, rw (n, found) refl, Complete-cons r.0 tokens n complete)
    ]

-- On every input, `tokenize` ends within one round more than there are characters, and returns a
-- list of tokens whose last one is that of the end of the input, and no other one is.
pub tokenize-Complete :
    (input : List ℕ) → (tokens : List Token) × (tokenize input ≡ some tokens) × Complete tokens
unfolding tokenize
tokenize-Complete input = tokenize_fuel-Complete (suc (length input)) input (omega arith)
