-- ===== src/Sql/Lexer/Roundtrip.antt =====
-- Tokens that are spelled out with a space behind each are read back by src/sql/lexer.cpp.
use lettydb.Sql.Lexer.Spelled.{Spelled}
use lettydb.Sql.Lexer.Spelled.Tokens.{next_token-Spelled, Spelled-not_eof}
use lettydb.Common.{
  ℕ, zero, suc, ◌≤◌, ◌<◌, ◌≡◌, refl, ap, ◌∙◌, List, [], ◌∷◌, ◌++◌, false, some, arith,
  length-append, length,
}
use lettydb.Sql.Token.{TokenType, Token}
use lettydb.Sql.Lexer.{next_token, is_eof, tokenize_fuel, tokenize}

-- Tokens, each written with a space behind it.
pub data SpelledAll : List Token → List ℕ → Type 0 where
  nothing : SpelledAll [] []
  more :
      {t : Token} {s : List ℕ} {ts : List Token} {input : List ℕ}
      → Spelled t s
      → SpelledAll ts input
      → SpelledAll (t ∷ ts) (s ++ 32 ∷ input)

abbrev pub eof : Token
eof = record { kind = TokenType.eof_file; text = [] }

tokenize_step :
    (fuel : ℕ) (input rest : List ℕ) (t : Token) (later : List Token)
    → next_token input ≡ (t, rest)
    → is_eof t.kind ≡ false
    → tokenize_fuel fuel rest ≡ some later
    → tokenize_fuel (suc fuel) input ≡ some (t ∷ later)
unfolding tokenize_fuel
tokenize_step fuel input rest t later n e l =
    rw (n, e, l) (ap (λ (u : Token × List ℕ). some (u.0 ∷ later)) n)

tokenize_space :
    (fuel : ℕ) (input : List ℕ)
    → tokenize_fuel (suc fuel) (32 ∷ input) ≡ tokenize_fuel (suc fuel) input
unfolding tokenize_fuel next_token
tokenize_space fuel input = refl

tokenize_end : (fuel : ℕ) → tokenize_fuel (suc fuel) [] ≡ some (eof ∷ [])
unfolding tokenize_fuel next_token is_eof
tokenize_end fuel = refl

tokenize_fuel-SpelledAll :
    {ts : List Token} {input : List ℕ} (fuel : ℕ)
    → SpelledAll ts input
    → length ts < fuel
    → tokenize_fuel fuel input ≡ some (ts ++ eof ∷ [])
tokenize_fuel-SpelledAll zero all h = absurd (ground arith)
tokenize_fuel-SpelledAll (suc fuel) nothing h = tokenize_end fuel
tokenize_fuel-SpelledAll (suc zero) (more sp all) h = absurd (ground arith)
tokenize_fuel-SpelledAll (suc (suc fuel)) (more {t} {s} {ts} {input} sp all) h =
    tokenize_step (suc fuel) (s ++ 32 ∷ input) (32 ∷ input) t (ts ++ eof ∷ [])
      (next_token-Spelled input sp) (Spelled-not_eof sp)
      (tokenize_space fuel input ∙ tokenize_fuel-SpelledAll (suc fuel) all (omega (arith, h)))

length-SpelledAll :
    {ts : List Token} {input : List ℕ} → SpelledAll ts input → length ts ≤ length input
length-SpelledAll nothing = omega arith
length-SpelledAll (more {t} {s} {ts} {input} sp all) =
    omega (arith, length-SpelledAll all, length-append s (32 ∷ input))

-- If the input is a sequence of tokens, each written out with a space behind it (reserved words in
-- any case, other words, whole numbers, quoted dates, timestamps and other strings without a quote
-- inside, the symbols of one character and the comparison operators), `tokenize` returns these
-- tokens with their kinds and texts, and that of the end of the input last.
pub tokenize-SpelledAll :
    {ts : List Token} {input : List ℕ}
    → SpelledAll ts input
    → tokenize input ≡ some (ts ++ eof ∷ [])
unfolding tokenize
tokenize-SpelledAll {ts} {input} all =
    tokenize_fuel-SpelledAll (suc (length input)) all (omega (arith, length-SpelledAll all))
