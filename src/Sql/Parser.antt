-- ===== src/Sql/Parser.antt =====
-- src/sql/parser.cpp and parser.h. The tokens are those from pos on, and a method returns what is
-- left of them with its result. An exception is an Error, without the text of its message. peek()
-- at pos = tokens.size() reads past the vector, which has no defined result: the error
-- `past_end`. `out_of_fuel` has no counterpart in the program.
pub mod Expressions
pub mod Lists
pub mod Select
pub mod Insert
pub mod Create
pub mod Commands
pub mod Keeps
pub mod Grammar
pub mod Sound
pub mod Safety
pub mod Tests
pub mod Printer
pub mod Accepts
use lettydb.Common.{ℕ, ℤ, List, [], ◌∷◌, Bool, false, Option, none, some, if◌then◌else◌}
use lettydb.Sql.Token.{TokenType, Token}
use lettydb.Sql.Token.Kinds.{kind_is}
use lettydb.Sql.Ast.{SqlDate, SqlTimestamp}

-- DbException with ParseError; std::runtime_error for an unsupported statement; std::out_of_range,
-- of `advance` or of a number that does not fit.
pub data Error : Type 0 where
  parse_error unsupported_statement out_of_range past_end out_of_fuel : Error

pub data Result {ℓ} (T : Type ℓ) : Type ℓ where
  err : Error → Result T
  ok : T → Result T

abbrev pub bind {ℓ} : {T U : Type ℓ} → Result T → (T → Result U) → Result U
bind (err why) rest = err why
bind (ok value) rest = rest value

-- A method of the parser: from the tokens that are left to those that it leaves.
abbrev pub Parser {ℓ} : Type ℓ → Type ℓ
Parser T = List Token → Result (T × List Token)

module _ {ℓ} {T : Type ℓ} where
  abbrev pub throw : Error → Parser T
  throw why tokens = err why

  abbrev pub pure : T → Parser T
  pure value tokens = ok (value, tokens)

  infixl 1 ◌>>=◌ ◌>>◌
  abbrev pub ◌>>=◌ : {U : Type ℓ} → Parser T → (T → Parser U) → Parser U
  first >>= next = λ tokens. bind (first tokens) (λ (value, left). next value left)

  abbrev pub ◌>>◌ : {U : Type ℓ} → Parser T → Parser U → Parser U
  first >> next = first >>= (λ value. next)

-- A `do` block of a method, on the tokens at hand.
abbrev pub run {ℓ} : {A : Type ℓ} → List Token → Parser A → Result (A × List Token)
run ts p = p ts

-- What the parser takes from the standard library: std::stoll, std::stoi and std::stod, which throw
-- std::out_of_range on a number that does not fit (`none`), the minus of doubles, and the
-- fields that std::sscanf reads with the formats of parse_date_literal and parse_timestamp_literal.
pub record Conversions : Type 0 where
  pub stoll : List ℕ → Option ℤ
  pub stoi : List ℕ → Option ℤ
  pub stod : List ℕ → Option ℕ
  pub negate_double : ℕ → ℕ
  pub sscanf_date : List ℕ → ℤ × ℤ × ℤ
  pub sscanf_timestamp : List ℕ → ℤ × ℤ × ℤ × ℤ × ℤ × ℤ

unfoldable pub peek : List Token → Result Token
peek [] = err Error.past_end
peek (t ∷ rest) = ok t

unfoldable pub advance : Parser Token
advance [] = err Error.out_of_range
advance (t ∷ rest) = ok (t, rest)

unfoldable pub match_kind : TokenType → List Token → Bool
unfolding kind_is
match_kind kind [] = false
match_kind kind (t ∷ rest) = kind_is t.kind kind

unfoldable pub ensure : TokenType → Parser Token
unfolding kind_is
ensure kind [] = err Error.past_end
ensure kind (t ∷ rest) = if kind_is t.kind kind then ok (t, rest) else err Error.parse_error

-- What `match` guards.
unfoldable pub when_match {ℓ} : {A : Type ℓ} → TokenType → Parser A → Parser A → Parser A
unfolding match_kind
when_match kind p q ts = if match_kind kind ts then p ts else q ts

module _ (lib : Conversions) where
  unfoldable pub parse_date_literal : List ℕ → SqlDate
  parse_date_literal s =
      let (y, m, d) = lib.sscanf_date s in record { year = y; month = m; day = d }

  unfoldable pub parse_timestamp_literal : List ℕ → SqlTimestamp
  parse_timestamp_literal s =
      let (y, m, d, h, n, sec) = lib.sscanf_timestamp s in
      record { year = y; month = m; day = d; hour = h; minute = n; second = sec }

-- The value of a conversion, or std::out_of_range.
unfoldable pub converted {ℓ} : {A : Type ℓ} → Option A → Parser A
converted none ts = err Error.out_of_range
converted (some a) ts = ok (a, ts)
