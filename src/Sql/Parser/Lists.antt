-- ===== src/Sql/Parser/Lists.antt =====
-- src/sql/parser.cpp: the do-while loops over a list with commas. A round but the first takes a
-- comma, so one more than there are tokens is enough.
use lettydb.Common.{ℕ, zero, suc, ◌++◌, List, [], ◌∷◌, Option, none, some, if◌then◌else◌, length}
use lettydb.Sql.Token.{TokenType}
use lettydb.Sql.Parser.{
  Error, ok, err, Parser, pure, ◌>>=◌, ◌>>◌, run, advance, match_kind, ensure, when_match,
}

-- The comma that a round of a loop may begin with.
unfoldable pub skip_comma : Parser (Unit {0})
unfolding when_match advance
skip_comma = when_match TokenType.comma_token (do advance; pure tt) (pure tt)

-- The same by peek() in place of match().
unfoldable pub skip_comma_peek : Parser (Unit {0})
unfolding skip_comma
skip_comma_peek [] = err Error.past_end
skip_comma_peek (t ∷ rest) = skip_comma (t ∷ rest)

module _ {A : Type 0} (skip : Parser (Unit {0})) (item : Parser A) where
  unfoldable pub comma_loop : ℕ → Parser (List A)
  unfolding match_kind
  comma_loop zero ts = err Error.out_of_fuel
  comma_loop (suc f) ts = run ts do
    skip
    x ← item
    later ← λ rest.
        let more = comma_loop f rest in
        if match_kind TokenType.comma_token rest then more else ok ([], rest)
    pure (x ∷ later)

  unfoldable pub comma_list : Parser (List A)
  unfolding comma_loop
  comma_list ts = comma_loop (suc (length ts)) ts

unfoldable pub identifier_name : Parser (List ℕ)
unfolding ensure
identifier_name = do t ← ensure TokenType.identifier; pure t.text

unfoldable pub parse_identifier_list : Parser (List (List ℕ))
unfolding comma_list skip_comma_peek identifier_name
parse_identifier_list = comma_list skip_comma_peek identifier_name

-- The items that are there.
unfoldable pub present {ℓ} : {A : Type ℓ} → List (Option A) → List A
present [] = []
present (none ∷ xs) = present xs
present (some x ∷ xs) = x ∷ present xs

module _ {A B : Type 0} where
  -- What the rounds of a loop append to two lists.
  unfoldable pub gathered : List (List A × List B) → List A × List B
  gathered [] = ([], [])
  gathered ((a, b) ∷ xs) = let (as_, bs) = gathered xs in (a ++ as_, b ++ bs)
