-- ===== src/Sql/Lexer.antt =====
-- src/sql/lexer.cpp, and the date formats of src/sql/utils.cpp. The state is the rest of the
-- input from curr_pos on. Character classes are those of the C locale.
pub mod Progress
pub mod Keywords
pub mod Shapes
pub mod Spelled
pub mod Roundtrip
use lettydb.Common.{
  ℕ, zero, suc, ◌+◌, ◌-◌, ◌≤◌, ◌<◌, ◌≡◌, List, [], ◌∷◌, ◌++◌, Bool, true, false, ◌&&◌, ◌||◌, not,
  Option, none, some, arith, ◌==◌, ltb, leb, if◌then◌else◌, length,
}
use lettydb.Sql.Token.{TokenType, Token, keyword_map}

abbrev pub is_digit : ℕ → Bool
is_digit c = leb 48 c && leb c 57

abbrev pub is_alpha : ℕ → Bool
is_alpha c = (leb 65 c && leb c 90) || (leb 97 c && leb c 122)

-- A character of an identifier.
abbrev pub is_word : ℕ → Bool
is_word c = is_alpha c || is_digit c || c == 95

abbrev pub to_upper : ℕ → ℕ
to_upper c = if leb 97 c && leb c 122 then c - 32 else c

abbrev pub upper_text : List ℕ → List ℕ
upper_text [] = []
upper_text (c ∷ cs) = to_upper c ∷ upper_text cs

-- A while loop that advances: what is taken, and the rest.
unfoldable pub take_while : (ℕ → Bool) → List ℕ → List ℕ × List ℕ
take_while p [] = ([], [])
take_while p (c ∷ cs) =
    let (taken, rest) = take_while p cs in if p c then (c ∷ taken, rest) else ([], c ∷ cs)

-- A regular expression of digits and fixed characters; `none` stands for `\d`.
unfoldable pub matches : List (Option ℕ) → List ℕ → Bool
matches [] [] = true
matches [] (c ∷ cs) = false
matches (x ∷ xs) [] = false
matches (none ∷ xs) (c ∷ cs) = is_digit c && matches xs cs
matches (some x ∷ xs) (c ∷ cs) = (c == x) && matches xs cs

abbrev date_regex : List (Option ℕ)
date_regex = none ∷ none ∷ none ∷ none ∷ some 45 ∷ none ∷ none ∷ some 45 ∷ none ∷ none ∷ []

unfoldable pub is_date_literal : List ℕ → Bool
is_date_literal s = matches date_regex s

unfoldable pub is_timestamp_literal : List ℕ → Bool
is_timestamp_literal s =
    matches
      (date_regex ++ some 32 ∷ none ∷ none ∷ some 58 ∷ none ∷ none ∷ some 58 ∷ none ∷ none ∷ []) s

abbrev pub same_text : List ℕ → List ℕ → Bool
same_text [] [] = true
same_text [] (y ∷ ys) = false
same_text (x ∷ xs) [] = false
same_text (x ∷ xs) (y ∷ ys) = (x == y) && same_text xs ys

unfoldable pub find_keyword : List (List ℕ × TokenType) → List ℕ → Option TokenType
find_keyword [] text = none
find_keyword ((k, t) ∷ entries) text =
    let rest = find_keyword entries text in if same_text k text then some t else rest

unfoldable pub keyword_or_identifier : Option TokenType → List ℕ → Token
keyword_or_identifier none text = record { kind = TokenType.identifier; text = text }
keyword_or_identifier (some t) text = record { kind = t; text = text }

unfoldable pub make_key_or_identifier : List ℕ → Token × List ℕ
make_key_or_identifier input =
    let (text, rest) = take_while is_word input in
    (keyword_or_identifier (find_keyword keyword_map (upper_text text)) text, rest)

-- After the digits of an integer: a dot that a digit follows makes it a float.
unfoldable pub make_fraction : List ℕ → List ℕ → Token × List ℕ
make_fraction digits (c ∷ d ∷ rest) =
    let (fraction, after) = take_while is_digit (d ∷ rest) in
    if (c == 46) && is_digit d
    then (record { kind = TokenType.float_literal; text = digits ++ c ∷ fraction }, after)
    else (record { kind = TokenType.int_literal; text = digits }, c ∷ d ∷ rest)
make_fraction digits rest = (record { kind = TokenType.int_literal; text = digits }, rest)

unfoldable pub make_numbers : List ℕ → Token × List ℕ
make_numbers input = let (digits, rest) = take_while is_digit input in make_fraction digits rest

unfoldable pub string_kind : List ℕ → TokenType
string_kind value =
    if is_date_literal value
    then TokenType.date_literal
    else (if is_timestamp_literal value
        then TokenType.timestamp_literal
        else TokenType.string_literal)

-- After the characters of a string: the closing quote, or the end of the input.
unfoldable pub close_string : List ℕ → List ℕ → Token × List ℕ
close_string value [] = (record { kind = TokenType.unknown; text = 39 ∷ value }, [])
close_string value (c ∷ rest) = (record { kind = string_kind value; text = value }, rest)

-- The input is that after the opening quote.
unfoldable pub make_string : List ℕ → Token × List ℕ
make_string input =
    let (value, rest) = take_while (λ c. not (c == 39)) input in close_string value rest

-- An operator that an equals sign may follow.
unfoldable pub with_equals : TokenType → List ℕ → TokenType → List ℕ → List ℕ → Token × List ℕ
with_equals two two_text one one_text [] = (record { kind = one; text = one_text }, [])
with_equals two two_text one one_text (c ∷ rest) =
    if c == 61
    then (record { kind = two; text = two_text }, rest)
    else (record { kind = one; text = one_text }, c ∷ rest)

-- `make_operator`, its first character taken.
unfoldable pub make_operator : ℕ → List ℕ → Token × List ℕ
make_operator c rest =
    if c == 61
    then (record { kind = TokenType.eq_token; text = 61 ∷ [] }, rest)
    else (if c == 33
        then with_equals TokenType.ne_token (33 ∷ 61 ∷ []) TokenType.unknown (33 ∷ []) rest
        else (if c == 60
            then with_equals TokenType.lte_token (60 ∷ 61 ∷ []) TokenType.lt_token (60 ∷ []) rest
            else with_equals TokenType.gte_token (62 ∷ 61 ∷ []) TokenType.gt_token (62 ∷ []) rest))

-- The tokens of one character.
unfoldable pub single_kind : ℕ → Option TokenType
single_kind c =
    if c == 42
    then some TokenType.star_token
    else (if c == 46
        then some TokenType.dot_token
        else (if c == 44
            then some TokenType.comma_token
            else (if c == 40
                then some TokenType.lparen_token
                else (if c == 41
                    then some TokenType.rparen_token
                    else (if c == 59
                        then some TokenType.semicolon_token
                        else (if c == 43
                            then some TokenType.plus_token
                            else (if c == 45 then some TokenType.minus_token else none)))))))

abbrev pub is_space : ℕ → Bool
is_space c = c == 32 || c == 9 || c == 13 || c == 10

abbrev pub is_operator : ℕ → Bool
is_operator c = c == 61 || c == 62 || c == 60 || c == 33

-- The cases of `next_token` for a character that is not white space.
unfoldable pub token_at : ℕ → List ℕ → Option TokenType → Token × List ℕ
token_at c rest (some t) = (record { kind = t; text = c ∷ [] }, rest)
token_at c rest none =
    if c == 39
    then make_string rest
    else (if is_operator c
        then make_operator c rest
        else (if is_digit c
            then make_numbers (c ∷ rest)
            else (if is_alpha c || c == 95
                then make_key_or_identifier (c ∷ rest)
                else (record { kind = TokenType.unknown; text = c ∷ [] }, rest))))

unfoldable pub next_token : List ℕ → Token × List ℕ
next_token [] = (record { kind = TokenType.eof_file; text = [] }, [])
next_token (c ∷ rest) =
    let skipped = next_token rest in if is_space c then skipped else token_at c rest (single_kind c)

unfoldable pub is_eof : TokenType → Bool
is_eof TokenType.eof_file = true
is_eof t = false

-- The loop of `tokenize`, for at most `fuel` tokens; `none` if that is not enough.
unfoldable pub tokenize_fuel : ℕ → List ℕ → Option (List Token)
tokenize_fuel zero input = none
tokenize_fuel (suc fuel) input =
    let (token, rest) = next_token input in
    let later = tokenize_fuel fuel rest in
    if is_eof token.kind
    then some (token ∷ [])
    else elim later [ none ↦ none | some tokens ↦ some (token ∷ tokens) ]

-- A token takes a character at least, so one more round than there are characters is enough.
unfoldable pub tokenize : List ℕ → Option (List Token)
tokenize input = tokenize_fuel (suc (length input)) input
