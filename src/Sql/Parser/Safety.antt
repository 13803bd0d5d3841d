-- ===== src/Sql/Parser/Safety.antt =====
-- src/sql/parser.cpp on the tokens of src/sql/lexer.cpp.
use lettydb.Common.{
  ℕ, ◌≡◌, ◌≢◌, inl, inr, refl, subst, sym, ◌∙◌, Bool-cases, List, [], ◌∷◌, ◌++◌, false, some,
}
use lettydb.Sql.Token.{TokenType, Token}
use lettydb.Sql.Token.Kinds.{kind_is, kind_is→eq}
use lettydb.Sql.Lexer.{is_eof, tokenize}
use lettydb.Sql.Lexer.Progress.{Complete, tokenize-Complete}
use lettydb.Sql.Parser.{Error, err, Conversions, match_kind}
use lettydb.Sql.Parser.Expressions.{parse_logical_expression}
use lettydb.Sql.Parser.Commands.{statement_at, parse}
use lettydb.Sql.Parser.Grammar.{Disjunction}
use lettydb.Sql.Parser.Keeps.{Post, throws, weaken, of_err, Laws, KeepsAt}
use lettydb.Sql.Parser.Keeps.Commands.{
  parse_select_node-KeepsAt, parse_insert_node-Keeps, parse_update_node-Keeps,
  parse_delete_node-Keeps, parse_drop_node-KeepsAt, parse_create_node-Keeps,
  parse_compact_node-Keeps, known-KeepsAt,
}
use lettydb.Sql.Parser.Sound.Levels.{parse_logical_expression-Reads}

-- The exceptions of the program.
abbrev pub IsThrown : Error → Type 0
IsThrown Error.past_end = ⊥
IsThrown Error.out_of_fuel = ⊥
IsThrown e = Unit {0}

some-injective : {xs ys : List Token} → some xs ≡ some ys → xs ≡ ys
some-injective h = cc

Complete-step :
    (t : Token) (rest : List Token) → is_eof t.kind ≡ false → Complete (t ∷ rest) → Complete rest
Complete-step t [] n c = cc (n, c)
Complete-step t (u ∷ rest) n c = c.1

Complete-laws : Laws IsThrown Complete
Complete-laws = record {
  parse_error_allowed = tt;
  out_of_range_allowed = tt;
  unsupported_allowed = tt;
  past_end_allowed = λ c. absurd c;
  step = Complete-step;
}

fuel_laws : Laws (λ e. e ≢ Error.out_of_fuel) (λ _. Unit {0})
fuel_laws = record {
  parse_error_allowed = λ e. cc;
  out_of_range_allowed = λ e. cc;
  unsupported_allowed = λ e. cc;
  past_end_allowed = λ _ e. cc;
  step = λ _ _ _ _. tt;
}

module _ (lib : Conversions) where
  module _ {E : Error → Type 0} {I : List Token → Type 0} (laws : Laws E I) where
    statement_at-KeepsAt :
        (k : TokenType) (t : Token) (rest : List Token)
        → t.kind ≡ k
        → kind_is k TokenType.insert_token ≡ false
        → KeepsAt laws (statement_at lib k) (t ∷ rest)
    unfolding statement_at is_eof kind_is lettydb.Sql.Token.Kinds.ordinal
    statement_at-KeepsAt TokenType.select_token t rest e n =
        parse_select_node-KeepsAt laws lib t rest e
    statement_at-KeepsAt TokenType.insert_token t rest e n = cc
    statement_at-KeepsAt TokenType.delete_token t rest e n =
        parse_delete_node-Keeps laws lib (t ∷ rest)
    statement_at-KeepsAt TokenType.update_token t rest e n =
        parse_update_node-Keeps laws lib (t ∷ rest)
    statement_at-KeepsAt TokenType.drop_token t rest e n = parse_drop_node-KeepsAt laws lib t rest e
    statement_at-KeepsAt TokenType.create_token t rest e n =
        parse_create_node-Keeps laws lib (t ∷ rest)
    statement_at-KeepsAt TokenType.compact_token t rest e n =
        known-KeepsAt laws TokenType.compact_token _ t rest e refl
          λ _. parse_compact_node-Keeps laws lib
    statement_at-KeepsAt k t rest e n = λ i. throws laws.unsupported_allowed

  parse-Complete :
      (tokens : List Token)
      → match_kind TokenType.insert_token tokens ≡ false
      → Complete tokens
      → Post IsThrown (λ r. Complete r.1) (parse lib tokens)
  unfolding parse match_kind
  parse-Complete [] n c = absurd c
  parse-Complete (t ∷ rest) n c =
      weaken (λ _ h. h.0) (statement_at-KeepsAt Complete-laws t.kind t rest refl n c)

  -- If the tokens that `tokenize` returns for an input do not begin with INSERT, `parse` returns a
  -- statement and leaves tokens that end with that of the end of the input, or it throws an
  -- exception of the program. It never reads past the tokens.
  pub parse-IsThrown :
      (input : List ℕ) (tokens : List Token)
      → tokenize input ≡ some tokens
      → match_kind TokenType.insert_token tokens ≡ false
      → Post IsThrown (λ r. Complete r.1) (parse lib tokens)
  parse-IsThrown input tokens e n =
      let (found, same, complete) = tokenize-Complete input in
      parse-Complete tokens n (subst Complete (some-injective (sym same ∙ e)) complete)

  statement_at-fuel :
      (k : TokenType) (t : Token) (rest : List Token)
      → t.kind ≡ k
      → KeepsAt fuel_laws (statement_at lib k) (t ∷ rest)
  unfolding statement_at
  statement_at-fuel k t rest e = elim (Bool-cases (kind_is k TokenType.insert_token)) [
    | inl h ↦
        rw (kind_is→eq k TokenType.insert_token h)
          (parse_insert_node-Keeps fuel_laws lib (λ _ _ _. tt) (t ∷ rest))
    | inr n ↦ statement_at-KeepsAt fuel_laws k t rest e n
  ]

  -- On any tokens, each loop and each descent of `parse`, INSERT included, ends within the fuel
  -- that the model gives it from the number of tokens.
  pub parse-ne-out_of_fuel : (tokens : List Token) → parse lib tokens ≢ err Error.out_of_fuel
  unfolding parse
  parse-ne-out_of_fuel [] e = cc
  parse-ne-out_of_fuel (t ∷ rest) e =
      of_err (subst (Post _ _) e (statement_at-fuel t.kind t rest refl tt)) refl

  -- On tokens that end with the end of the input, `parse_logical_expression` throws an exception of
  -- the program, or what it read is derived by the grammar for the tree that it returns and the
  -- rest still ends so.
  pub parse_logical_expression_sound :
      (ts : List Token)
      → Complete ts
      → Post IsThrown
          (λ r. (used : List Token) × (ts ≡ used ++ r.1) × Disjunction lib used r.0 × Complete r.1)
          (parse_logical_expression lib ts)
  parse_logical_expression_sound = parse_logical_expression-Reads Complete-laws lib
