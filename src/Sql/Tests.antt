-- ===== src/Sql/Tests.antt =====
-- A query, and the theorems of src/sql at it.
use lettydb.Common.{ℕ, arith, sym, subst, ◌≡◌, refl, List, [], ◌∷◌, ◌++◌, some}
use lettydb.Sql.Token.{TokenType, Token, keyword_map}
use lettydb.Sql.Lexer.{tokenize}
use lettydb.Sql.Lexer.Progress
use lettydb.Sql.Lexer.Progress.{Complete}
use lettydb.Sql.Lexer.{find_keyword}
use lettydb.Sql.Lexer.Keywords.{
  IsReserved, AnyCase, done, capital, small, find_keyword-IsReserved, IsReserved-find_keyword,
  AnyCase-upper_text,
}
use lettydb.Sql.Lexer.Roundtrip
use lettydb.Sql.Lexer.Roundtrip.{SpelledAll, nothing, more, eof}
use lettydb.Sql.Lexer.Spelled.{keyword, identifier, digits, semicolon, less_or_equal}

-- "oR a <= 42 ; ", without the quotes.
abbrev query : List ℕ
query = 111 ∷ 82 ∷ 32 ∷ 97 ∷ 32 ∷ 60 ∷ 61 ∷ 32 ∷ 52 ∷ 50 ∷ 32 ∷ 59 ∷ 32 ∷ []

abbrev query_tokens : List Token
query_tokens =
    record { kind = TokenType.or_token; text = 111 ∷ 82 ∷ [] }
    ∷ record { kind = TokenType.identifier; text = 97 ∷ [] }
    ∷ record { kind = TokenType.lte_token; text = 60 ∷ 61 ∷ [] }
    ∷ record { kind = TokenType.int_literal; text = 52 ∷ 50 ∷ [] }
    ∷ record { kind = TokenType.semicolon_token; text = 59 ∷ [] }
    ∷ []

or-IsReserved : IsReserved (79 ∷ 82 ∷ []) TokenType.or_token
unfolding lettydb.Sql.Lexer.find_keyword lettydb.Sql.Token.keyword_map
or-IsReserved = find_keyword-IsReserved (79 ∷ 82 ∷ []) TokenType.or_token refl

a_not_reserved : (k : List ℕ) (t : TokenType) → IsReserved k t → AnyCase k (97 ∷ []) → ⊥
unfolding lettydb.Sql.Lexer.find_keyword lettydb.Sql.Token.keyword_map
a_not_reserved k t r a = nothing_found (
    subst (λ u. find_keyword keyword_map u ≡ some t) (sym (AnyCase-upper_text a))
      (IsReserved-find_keyword k t r))
  where
    nothing_found : find_keyword keyword_map (65 ∷ []) ≡ some t → ⊥
    nothing_found e = ground (arith, e)

query-SpelledAll : SpelledAll query_tokens query
query-SpelledAll =
    more
      (keyword or-IsReserved
        (small (omega arith, omega arith) (capital (omega arith, omega arith) done)))
      (more (identifier 97 [] refl tt a_not_reserved)
        (more less_or_equal (more (digits 52 (50 ∷ []) refl (refl, tt)) (more semicolon nothing))))

tokenize-SpelledAll_example : tokenize query ≡ some (query_tokens ++ eof ∷ [])
tokenize-SpelledAll_example = Roundtrip.tokenize-SpelledAll query-SpelledAll

tokenize-Complete_example : (tokens : List Token) × (tokenize query ≡ some tokens) × Complete tokens
tokenize-Complete_example = Progress.tokenize-Complete query
