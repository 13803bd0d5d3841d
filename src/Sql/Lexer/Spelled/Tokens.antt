-- ===== src/Sql/Lexer/Spelled/Tokens.antt =====
-- Each token that is spelled out with a space behind it is read back by `next_token` of
-- src/sql/lexer.cpp.
use lettydb.Sql.Lexer.Spelled.{
  AllChars, Spelled, keyword, identifier, digits, date, timestamp, quoted, star, dot, comma, lparen,
  rparen, semicolon, plus, minus, equal, unequal, less, less_or_equal, greater, greater_or_equal,
  take_while_all, digit_start, make_fraction_space, word_token, keyword_found, identifier_found,
  reserved_word,
}
use lettydb.Common.{
  ℕ, suc, ◌⊎◌, ◌≡◌, inl, inr, refl, subst, ap, List, [], ◌∷◌, ◌++◌, Bool, true, false, arith, ◌==◌,
  if◌then◌else◌, length, Bool-cases, not,
}
use mathlib.Core.List.{append_assoc}
use lettydb.Sql.Token.{TokenType, Token, keyword_map}
use lettydb.Sql.Lexer.Keywords.{ascii}
use lettydb.Sql.Lexer.Shapes.{
  Shaped, IsDate, IsTimestamp, is_date_literal-IsDate, is_timestamp_literal-IsTimestamp,
}
use lettydb.Sql.Lexer.{
  is_date_literal, is_timestamp_literal, is_digit, upper_text, find_keyword, same_text,
  keyword_or_identifier, make_key_or_identifier, make_numbers, close_string, make_string,
  string_kind, with_equals, make_operator, single_kind, token_at, next_token, is_eof,
}

quoted_token :
    (value rest : List ℕ)
    → AllChars (λ c. not (c == 39)) value
    → next_token ((39 ∷ value ++ 39 ∷ []) ++ 32 ∷ rest)
      ≡ (record { kind = string_kind value; text = value }, 32 ∷ rest)
unfolding next_token token_at make_string close_string single_kind
quoted_token value rest all =
    let run = take_while_all (λ c. not (c == 39)) value 39 (32 ∷ rest) all refl in
    rw (append_assoc value (39 ∷ []) (32 ∷ rest), run) refl

abbrev no_quote_in : List ℕ → Bool
no_quote_in [] = true
no_quote_in (x ∷ xs) = if x == 39 then false else no_quote_in xs

Shaped-no_quote :
    (template value : List ℕ)
    → no_quote_in template ≡ true
    → Shaped template value
    → AllChars (λ c. not (c == 39)) value
Shaped-no_quote [] [] n h = tt
Shaped-no_quote [] (c ∷ cs) n h = absurd h
Shaped-no_quote (x ∷ xs) [] n h = absurd h
Shaped-no_quote (x ∷ xs) (c ∷ cs) n h =
    (ground (arith, n, h.0), Shaped-no_quote xs cs (ground (arith, n)) h.1)

length-Shaped : (template value : List ℕ) → Shaped template value → length value ≡ length template
length-Shaped [] [] h = refl
length-Shaped [] (c ∷ cs) h = absurd h
length-Shaped (x ∷ xs) [] h = absurd h
length-Shaped (x ∷ xs) (c ∷ cs) h = ap (λ n. suc n) (length-Shaped xs cs h.1)

date_kind : (value : List ℕ) → IsDate value → string_kind value ≡ TokenType.date_literal
unfolding string_kind
date_kind value h = rw ((is_date_literal-IsDate value).1 h) refl

timestamp_kind :
    (value : List ℕ) → IsTimestamp value → string_kind value ≡ TokenType.timestamp_literal
unfolding string_kind
timestamp_kind value h = elim (Bool-cases (is_date_literal value)) [
  | inl d ↦
      let ten = length-Shaped (ascii "dddd-dd-dd") value ((is_date_literal-IsDate value).0 d) in
      let more = length-Shaped (ascii "dddd-dd-dd dd:dd:dd") value h in
      absurd (omega (arith, ten, more))
  | inr n ↦ rw (n, (is_timestamp_literal-IsTimestamp value).1 h) refl
]

other_kind :
    (value : List ℕ)
    → ((IsDate value ⊎ IsTimestamp value) → ⊥)
    → string_kind value ≡ TokenType.string_literal
unfolding string_kind
other_kind value other = elim (Bool-cases (is_date_literal value)) [
  | inl d ↦ absurd (other (inl ((is_date_literal-IsDate value).0 d)))
  | inr n ↦ elim (Bool-cases (is_timestamp_literal value)) [
    | inl t ↦ absurd (other (inr ((is_timestamp_literal-IsTimestamp value).0 t)))
    | inr m ↦ rw (n, m) refl
  ]
]

pub next_token-Spelled :
    {t : Token} {s : List ℕ} (rest : List ℕ)
    → Spelled t s
    → next_token (s ++ 32 ∷ rest) ≡ (t, 32 ∷ rest)
unfolding next_token token_at make_key_or_identifier make_numbers make_string close_string
    make_operator with_equals single_kind
next_token-Spelled rest (keyword {k} {w} {t} r a) =
    let (c, cs, e, start, all) = reserved_word k w t r a in
    let found =
      subst
        (λ v.
          keyword_or_identifier (find_keyword keyword_map (upper_text v)) v
          ≡ record { kind = t; text = v })
        e (keyword_found k w t r a) in
    rw (e) (word_token c cs rest start all t found)
next_token-Spelled rest (identifier c cs h all other) =
    word_token c cs rest h all TokenType.identifier (identifier_found c cs other)
next_token-Spelled rest (digits c cs h all) =
    let (a, b, d, e) = digit_start c h in
    let run = take_while_all is_digit (c ∷ cs) 32 rest (h, all) refl in
    rw (next_token, a, b, token_at, d, e, h, make_numbers, run) (make_fraction_space (c ∷ cs) rest)
next_token-Spelled rest (date value h) =
    rw
      (
        quoted_token value rest (Shaped-no_quote (ascii "dddd-dd-dd") value refl h),
        date_kind value h,
      )
      refl
next_token-Spelled rest (timestamp value h) =
    rw
      (
        quoted_token value rest (Shaped-no_quote (ascii "dddd-dd-dd dd:dd:dd") value refl h),
        timestamp_kind value h,
      )
      refl
next_token-Spelled rest (quoted value all other) =
    rw (quoted_token value rest all, other_kind value other) refl
next_token-Spelled rest star = refl
next_token-Spelled rest dot = refl
next_token-Spelled rest comma = refl
next_token-Spelled rest lparen = refl
next_token-Spelled rest rparen = refl
next_token-Spelled rest semicolon = refl
next_token-Spelled rest plus = refl
next_token-Spelled rest minus = refl
next_token-Spelled rest equal = refl
next_token-Spelled rest unequal = refl
next_token-Spelled rest less = refl
next_token-Spelled rest less_or_equal = refl
next_token-Spelled rest greater = refl
next_token-Spelled rest greater_or_equal = refl

no_eof : List (List ℕ × TokenType) → Bool
no_eof [] = true
no_eof ((k, t) ∷ entries) = if is_eof t then false else no_eof entries

keyword_map-no_eof : no_eof keyword_map ≡ true
unfolding no_eof keyword_map is_eof
keyword_map-no_eof = refl

find_keyword_not_eof :
    (entries : List (List ℕ × TokenType)) (u s : List ℕ)
    → no_eof entries ≡ true
    → is_eof (keyword_or_identifier (find_keyword entries u) s).kind ≡ false
unfolding no_eof find_keyword keyword_or_identifier is_eof
find_keyword_not_eof [] u s h = refl
find_keyword_not_eof ((k, t) ∷ entries) u s h = elim (Bool-cases (is_eof t)) [
  | inl e ↦ absurd (ground (arith, e, h))
  | inr n ↦ elim (Bool-cases (same_text k u)) [
    | inl found ↦ rw (found) n
    | inr other ↦ rw (other) (find_keyword_not_eof entries u s (rw (n) at h))
  ]
]

pub Spelled-not_eof : {t : Token} {s : List ℕ} → Spelled t s → is_eof t.kind ≡ false
unfolding is_eof string_kind single_kind
Spelled-not_eof (keyword {k} {w} {t} r a) =
    let kind = find_keyword_not_eof keyword_map (upper_text w) w keyword_map-no_eof in
    rw (keyword_found k w t r a) at kind
Spelled-not_eof (identifier c cs h all other) = refl
Spelled-not_eof (digits c cs h all) = refl
Spelled-not_eof (date value h) = refl
Spelled-not_eof (timestamp value h) = refl
Spelled-not_eof (quoted value all other) = refl
Spelled-not_eof star = refl
Spelled-not_eof dot = refl
Spelled-not_eof comma = refl
Spelled-not_eof lparen = refl
Spelled-not_eof rparen = refl
Spelled-not_eof semicolon = refl
Spelled-not_eof plus = refl
Spelled-not_eof minus = refl
Spelled-not_eof equal = refl
Spelled-not_eof unequal = refl
Spelled-not_eof less = refl
Spelled-not_eof less_or_equal = refl
Spelled-not_eof greater = refl
Spelled-not_eof greater_or_equal = refl
