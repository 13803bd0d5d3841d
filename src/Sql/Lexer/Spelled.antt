-- ===== src/Sql/Lexer/Spelled.antt =====
-- How the tokens of src/sql/lexer.cpp are written, and what the lexer finds at a word.
pub mod Tokens
use lettydb.Common.{
  ℕ, zero, suc, ◌+◌, ◌⊎◌, Option-cases, ◌≤◌, ◌<◌, ◌≡◌, inl, inr, refl, subst, ap, ◌∙◌, List, [],
  ◌∷◌, ◌++◌, Bool, true, false, none, some, arith, length-append, ◌==◌, if◌then◌else◌, length,
  Bool-cases, ◌||◌, not,
}
use mathlib.Core.List.{append_assoc}
use lettydb.Sql.Token.{TokenType, Token, keyword_map}
use lettydb.Sql.Lexer.Keywords.{
  ascii, IsReserved, AnyCase, done, capital, small, IsReserved-find_keyword,
  find_keyword-IsReserved, AnyCase-upper_text, IsReserved-AnyCase,
}
use lettydb.Sql.Lexer.Shapes.{
  decimal, letter, word_character, Shaped, IsDate, IsTimestamp, is_date_literal-IsDate,
  is_timestamp_literal-IsTimestamp,
}
use lettydb.Sql.Lexer.{
  is_date_literal, is_timestamp_literal, is_digit, is_word, is_alpha, is_operator, upper_text,
  find_keyword, same_text, keyword_or_identifier, take_while, make_key_or_identifier, make_fraction,
  make_numbers, close_string, make_string, string_kind, with_equals, make_operator, single_kind,
  is_space, token_at, next_token, is_eof, tokenize_fuel, tokenize,
}

abbrev pub AllChars : (ℕ → Bool) → List ℕ → Type 0
AllChars p [] = Unit {0}
AllChars p (c ∷ cs) = (p c ≡ true) × AllChars p cs

abbrev token : TokenType → List ℕ → Token
token k s = record { kind = k; text = s }

-- A token and how it is written.
pub data Spelled : Token → List ℕ → Type 0 where
  keyword :
      {k w : List ℕ} {t : TokenType}
      → IsReserved k t
      → AnyCase k w
      → Spelled (record { kind = t; text = w }) w
  identifier :
      (c : ℕ) (cs : List ℕ)
      → (letter c || c == 95) ≡ true
      → AllChars word_character cs
      → ((k : List ℕ) (t : TokenType) → IsReserved k t → AnyCase k (c ∷ cs) → ⊥)
      → Spelled (record { kind = TokenType.identifier; text = c ∷ cs }) (c ∷ cs)
  digits :
      (c : ℕ) (cs : List ℕ)
      → decimal c ≡ true
      → AllChars decimal cs
      → Spelled (record { kind = TokenType.int_literal; text = c ∷ cs }) (c ∷ cs)
  date :
      (value : List ℕ)
      → IsDate value
      → Spelled (record { kind = TokenType.date_literal; text = value }) (39 ∷ value ++ 39 ∷ [])
  timestamp :
      (value : List ℕ)
      → IsTimestamp value
      → Spelled
          (record { kind = TokenType.timestamp_literal; text = value })
          (39 ∷ value ++ 39 ∷ [])
  quoted :
      (value : List ℕ)
      → AllChars (λ c. not (c == 39)) value
      → ((IsDate value ⊎ IsTimestamp value) → ⊥)
      → Spelled (record { kind = TokenType.string_literal; text = value }) (39 ∷ value ++ 39 ∷ [])
  star : Spelled (record { kind = TokenType.star_token; text = 42 ∷ [] }) (42 ∷ [])
  dot : Spelled (record { kind = TokenType.dot_token; text = 46 ∷ [] }) (46 ∷ [])
  comma : Spelled (record { kind = TokenType.comma_token; text = 44 ∷ [] }) (44 ∷ [])
  lparen : Spelled (record { kind = TokenType.lparen_token; text = 40 ∷ [] }) (40 ∷ [])
  rparen : Spelled (record { kind = TokenType.rparen_token; text = 41 ∷ [] }) (41 ∷ [])
  semicolon : Spelled (record { kind = TokenType.semicolon_token; text = 59 ∷ [] }) (59 ∷ [])
  plus : Spelled (record { kind = TokenType.plus_token; text = 43 ∷ [] }) (43 ∷ [])
  minus : Spelled (record { kind = TokenType.minus_token; text = 45 ∷ [] }) (45 ∷ [])
  equal : Spelled (record { kind = TokenType.eq_token; text = 61 ∷ [] }) (61 ∷ [])
  unequal : Spelled (record { kind = TokenType.ne_token; text = 33 ∷ 61 ∷ [] }) (33 ∷ 61 ∷ [])
  less : Spelled (record { kind = TokenType.lt_token; text = 60 ∷ [] }) (60 ∷ [])
  less_or_equal :
      Spelled (record { kind = TokenType.lte_token; text = 60 ∷ 61 ∷ [] }) (60 ∷ 61 ∷ [])
  greater : Spelled (record { kind = TokenType.gt_token; text = 62 ∷ [] }) (62 ∷ [])
  greater_or_equal :
      Spelled (record { kind = TokenType.gte_token; text = 62 ∷ 61 ∷ [] }) (62 ∷ 61 ∷ [])

pub take_while_all :
    (p : ℕ → Bool) (cs : List ℕ) (x : ℕ) (rest : List ℕ)
    → AllChars p cs
    → p x ≡ false
    → take_while p (cs ++ x ∷ rest) ≡ (cs, x ∷ rest)
unfolding take_while
take_while_all p [] x rest h e = rw (e) refl
take_while_all p (c ∷ cs) x rest h e = rw (h.0, take_while_all p cs x rest h.1 e) refl

word_start :
    (c : ℕ)
    → (is_alpha c || c == 95) ≡ true
    → (is_space c ≡ false)
      × (single_kind c ≡ none)
      × ((c == 39) ≡ false)
      × (is_operator c ≡ false)
      × (is_digit c ≡ false)
      × (is_word c ≡ true)
unfolding single_kind
word_start c h =
    (ground arith, ground arith, ground arith, ground arith, ground arith, ground arith)

pub digit_start :
    (c : ℕ)
    → is_digit c ≡ true
    → (is_space c ≡ false) × (single_kind c ≡ none) × ((c == 39) ≡ false) × (is_operator c ≡ false)
unfolding single_kind
digit_start c h = (ground arith, ground arith, ground arith, ground arith)

pub make_fraction_space :
    (cs rest : List ℕ)
    → make_fraction cs (32 ∷ rest) ≡ (record { kind = TokenType.int_literal; text = cs }, 32 ∷ rest)
unfolding make_fraction
make_fraction_space cs [] = refl
make_fraction_space cs (d ∷ rest) = refl

pub word_token :
    (c : ℕ) (cs rest : List ℕ)
    → (is_alpha c || c == 95) ≡ true
    → AllChars is_word cs
    → (t : TokenType)
    → (keyword_or_identifier (find_keyword keyword_map (upper_text (c ∷ cs))) (c ∷ cs)
        ≡ record { kind = t; text = c ∷ cs })
    → next_token (c ∷ cs ++ 32 ∷ rest) ≡ (record { kind = t; text = c ∷ cs }, 32 ∷ rest)
unfolding next_token token_at make_key_or_identifier
word_token c cs rest h all t found =
    let (a, b, d, e, f, g) = word_start c h in
    let run = take_while_all is_word (c ∷ cs) 32 rest (g, all) refl in
    rw (next_token, a, b, token_at, d, e, f, h, make_key_or_identifier, run, found) refl

pub keyword_found :
    (k w : List ℕ) (t : TokenType)
    → IsReserved k t
    → AnyCase k w
    → keyword_or_identifier (find_keyword keyword_map (upper_text w)) w
      ≡ record { kind = t; text = w }
unfolding keyword_or_identifier
keyword_found k w t r a = rw (AnyCase-upper_text a, IsReserved-find_keyword k t r) refl

pub identifier_found :
    (c : ℕ) (cs : List ℕ)
    → ((k : List ℕ) (t : TokenType) → IsReserved k t → AnyCase k (c ∷ cs) → ⊥)
    → keyword_or_identifier (find_keyword keyword_map (upper_text (c ∷ cs))) (c ∷ cs)
      ≡ record { kind = TokenType.identifier; text = c ∷ cs }
unfolding keyword_or_identifier
identifier_found c cs other = elim (Option-cases (find_keyword keyword_map (upper_text (c ∷ cs)))) [
  | inl e ↦ rw (e) refl
  | inr (t, e) ↦
      let r = find_keyword-IsReserved (upper_text (c ∷ cs)) t e in
      absurd (other (upper_text (c ∷ cs)) t r (IsReserved-AnyCase (c ∷ cs) t r))
]

AnyCase-letters : {k w : List ℕ} → AnyCase k w → AllChars is_word w
AnyCase-letters done = tt
AnyCase-letters (capital h a) = (ground (arith, h), AnyCase-letters a)
AnyCase-letters (small h a) = (ground (arith, h), AnyCase-letters a)

-- A reserved word in any case is written like a word.
pub reserved_word :
    (k w : List ℕ) (t : TokenType)
    → IsReserved k t
    → AnyCase k w
    → (c : ℕ) × (cs : List ℕ) × (w ≡ c ∷ cs)
      × ((is_alpha c || c == 95) ≡ true)
      × AllChars is_word cs
unfolding find_keyword keyword_map
reserved_word k w t r done = absurd (empty_word t (IsReserved-find_keyword [] t r))
  where
    empty_word : (u : TokenType) → find_keyword keyword_map [] ≡ some u → ⊥
    empty_word u e = ground (arith, e)
reserved_word k w t r (capital {c} {ks} {ws} h a) =
    (c, ws, refl, ground (arith, h), AnyCase-letters a)
reserved_word k w t r (small {c} {ks} {ws} h a) =
    (c + 32, ws, refl, ground (arith, h), AnyCase-letters a)
