-- ===== src/Sql/Parser/Keeps.antt =====
-- Postconditions of the parsers of src/sql/parser.cpp, with a rule for each way to compose them.
pub mod Select
pub mod Commands
use lettydb.Common.{
  ℕ, zero, suc, ◌+◌, ◌≤◌, ◌<◌, ◌≡◌, refl, ap, subst, List, [], ◌∷◌, Bool, true, false, arith,
  if◌then◌else◌, length, Bool-cases, inl, inr, Option, none, some,
}
use lettydb.Sql.Token.{TokenType, Token}
use lettydb.Sql.Token.Kinds.{kind_is, kind_is→eq}
use lettydb.Sql.Lexer.{is_eof}
use lettydb.Sql.Parser.{
  Error, Result, ok, err, Parser, pure, throw, ◌>>=◌, ◌>>◌, bind, advance, match_kind, ensure,
  when_match, converted,
}
use lettydb.Sql.Parser.Lists.{comma_loop, comma_list, skip_comma, skip_comma_peek}

-- A call that ended with an error ended with one of `E`; one that returned has `P` of what it returned.
pub data Post {ℓ} {A : Type ℓ} (E : Error → Type ℓ) (P : A → Type ℓ) : Result A → Type ℓ where
  throws : {why : Error} → E why → Post E P (err why)
  returns : {value : A} → P value → Post E P (ok value)

module _ {ℓ} {A : Type ℓ} {E : Error → Type ℓ} {P : A → Type ℓ} where
  -- The postcondition of a conditional, with the outcome of its test.
  pub Post-if :
      (test : Bool) {x y : Result A}
      → (test ≡ true → Post E P x)
      → (test ≡ false → Post E P y)
      → Post E P (if test then x else y)
  Post-if true yes_case no_case = yes_case refl
  Post-if false yes_case no_case = no_case refl

  -- Of a call and the calls that follow on what it returns.
  pub Post-bind :
      {B : Type ℓ} {Q : B → Type ℓ} {call : Result A} {after : A → Result B}
      → Post E P call
      → ((value : A) → P value → Post E Q (after value))
      → Post E Q (bind call after)
  Post-bind (throws h) next = throws h
  Post-bind (returns {value} h) next = next value h

  -- Of the last call of a chain.
  pub Post-map :
      {Q : A → Type ℓ} {call : Result A}
      → Post E P call
      → ((value : A) → P value → Q value)
      → Post E Q call
  Post-map (throws h) g = throws h
  Post-map (returns {value} h) g = returns (g value h)

  pub weaken :
      {Q : A → Type ℓ} {call : Result A}
      → ((value : A) → P value → Q value)
      → Post E P call
      → Post E Q call
  weaken g h = Post-map h g

  pub of_err : {why : Error} → Post E P (err why) → E why
  of_err (throws h) = h

pub kind_not_eof :
    (k kind : TokenType) → kind_is k kind ≡ true → is_eof kind ≡ false → is_eof k ≡ false
kind_not_eof k kind h n = rw (kind_is→eq k kind h) n

-- `skip` takes a comma where one stands first.
abbrev pub Skips : Parser (Unit {0}) → Type 0
Skips skip =
    (t : Token) (rest : List Token)
    → kind_is t.kind TokenType.comma_token ≡ true
    → skip (t ∷ rest) ≡ ok (tt, rest)

pub skip_comma-Skips : Skips skip_comma
unfolding skip_comma when_match match_kind advance
skip_comma-Skips t rest h = rw (h) refl

pub skip_comma_peek-Skips : Skips skip_comma_peek
unfolding skip_comma_peek
skip_comma_peek-Skips = skip_comma-Skips

-- What a run relies on: the errors it may end with, and what holds of the tokens that are left.
pub record Laws (E : Error → Type 0) (I : List Token → Type 0) : Type 0 where
  pub parse_error_allowed : E Error.parse_error
  pub out_of_range_allowed : E Error.out_of_range
  pub unsupported_allowed : E Error.unsupported_statement
  pub past_end_allowed : I [] → E Error.past_end
  pub step : (t : Token) (rest : List Token) → is_eof t.kind ≡ false → I (t ∷ rest) → I rest

module _ {E : Error → Type 0} {I : List Token → Type 0} (laws : Laws E I) where
  -- `p` ends with an error that is allowed, or leaves no more tokens than it was given, with `I`.
  abbrev pub KeepsAt : {A : Type 0} → Parser A → List Token → Type 0
  KeepsAt p ts = I ts → Post E (λ r. I r.1 × (length r.1 ≤ length ts)) (p ts)

  abbrev pub Keeps : {A : Type 0} → Parser A → Type 0
  Keeps p = (ts : List Token) → KeepsAt p ts

  pub pure-Keeps : {A : Type 0} (a : A) → Keeps (pure a)
  pure-Keeps a ts i = returns (i, omega arith)

  pub parse_error-Keeps : {A : Type 0} → Keeps {A = A} (throw Error.parse_error)
  parse_error-Keeps ts i = throws laws.parse_error_allowed

  pub bind-Keeps :
      {A B : Type 0} {p : Parser A} {f : A → Parser B}
      → Keeps p
      → ((a : A) → Keeps (f a))
      → Keeps (p >>= f)
  bind-Keeps hp hf ts i =
      Post-bind (hp ts i)
        λ (a, rest) (i', l). weaken (λ _ (j, m). (j, omega (arith, l, m))) (hf a rest i')

  pub converted-Keeps : {A : Type 0} (o : Option A) → Keeps (converted o)
  unfolding converted
  converted-Keeps none ts i = throws laws.out_of_range_allowed
  converted-Keeps (some a) ts i = returns (i, omega arith)

  pub ensure-Keeps : (kind : TokenType) → is_eof kind ≡ false → Keeps (ensure kind)
  unfolding ensure
  ensure-Keeps kind n [] i = throws (laws.past_end_allowed i)
  ensure-Keeps kind n (t ∷ rest) i =
      Post-if (kind_is t.kind kind)
        (λ h. returns (laws.step t rest (kind_not_eof t.kind kind h n) i, omega arith))
        (λ _. throws laws.parse_error_allowed)

  -- A guard, with the token that it read taken.
  pub when_match-Keeps :
      {A : Type 0} (kind : TokenType) {f : Token → Parser A} {q : Parser A}
      → is_eof kind ≡ false
      → ((t : Token) → Keeps (f t))
      → Keeps q
      → Keeps (when_match kind (advance >>= f) q)
  unfolding when_match match_kind advance
  when_match-Keeps kind n hf hq [] i = hq [] i
  when_match-Keeps kind n hf hq (t ∷ rest) i =
      Post-if (kind_is t.kind kind)
        (λ h.
          weaken (λ _ (j, m). (j, omega (arith, m)))
            (hf t rest (laws.step t rest (kind_not_eof t.kind kind h n) i)))
        (λ _. hq (t ∷ rest) i)

  -- A guard that takes no token.
  pub guard-Keeps :
      {A : Type 0} (kind : TokenType) {p q : Parser A}
      → Keeps p
      → Keeps q
      → Keeps (when_match kind p q)
  unfolding when_match
  guard-Keeps kind hp hq ts i = Post-if (match_kind kind ts) (λ _. hp ts i) (λ _. hq ts i)

  pub skip_comma-Keeps : Keeps skip_comma
  unfolding skip_comma is_eof
  skip_comma-Keeps =
      when_match-Keeps TokenType.comma_token refl (λ _. pure-Keeps tt) (pure-Keeps tt)

  pub skip_comma_peek-Keeps : Keeps skip_comma_peek
  unfolding skip_comma_peek
  skip_comma_peek-Keeps [] i = throws (laws.past_end_allowed i)
  skip_comma_peek-Keeps (t ∷ rest) i = skip_comma-Keeps (t ∷ rest) i

  -- A round that begins with a comma leaves fewer tokens, so as many rounds as tokens are enough.
  module _ {A : Type 0} (skip : Parser (Unit {0})) (item : Parser A) where
    -- The loop goes on as `comma_loop` with `f` rounds.
    abbrev RoundsKeep : ℕ → Type 0
    RoundsKeep f =
        (t : Token) (rest : List Token)
        → kind_is t.kind TokenType.comma_token ≡ true
        → length (t ∷ rest) ≤ f
        → KeepsAt (comma_loop skip item f) (t ∷ rest)

    later-KeepsAt :
        (f : ℕ) (ts : List Token)
        → RoundsKeep f
        → length ts ≤ f
        → KeepsAt
            (λ rest.
              if match_kind TokenType.comma_token rest
              then comma_loop skip item f rest
              else ok ([], rest))
            ts
    unfolding match_kind
    later-KeepsAt f [] k l i = returns (i, omega arith)
    later-KeepsAt f (t ∷ rest) k l i =
        Post-if (kind_is t.kind TokenType.comma_token) (λ h. k t rest h l i)
          (λ _. returns (i, omega arith))

    round-lem :
        (f : ℕ) (ts : List Token)
        → RoundsKeep f
        → Keeps item
        → Post E (λ r. I r.1 × (length r.1 ≤ f) × (length r.1 ≤ length ts)) (skip ts)
        → Post E (λ r. I r.1 × (length r.1 ≤ length ts)) (comma_loop skip item (suc f) ts)
    unfolding comma_loop
    round-lem f ts k h s = Post-bind s λ (_, ts₁) (i₁, l₁, m₁).
        Post-bind (h ts₁ i₁) λ (x, ts₂) (i₂, l₂).
          Post-bind (later-KeepsAt f ts₂ k (omega (arith, l₁, l₂)) i₂)
            λ (xs, ts₃) (i₃, l₃). returns (i₃, omega (arith, m₁, l₂, l₃))

    comma_loop-RoundsKeep : (f : ℕ) → Skips skip → Keeps item → RoundsKeep f
    unfolding is_eof
    comma_loop-RoundsKeep zero c h t rest e l i = absurd (omega arith)
    comma_loop-RoundsKeep (suc f) c h t rest e l i =
        round-lem f (t ∷ rest) (comma_loop-RoundsKeep f c h) h (
          rw (c t rest e) (
            returns (
              laws.step t rest (kind_not_eof t.kind TokenType.comma_token e refl) i,
              omega (arith, l),
              omega arith,
            )))

    pub comma_list-Keeps : Skips skip → Keeps skip → Keeps item → Keeps (comma_list skip item)
    unfolding comma_list
    comma_list-Keeps c s h ts i =
        round-lem (length ts) ts (comma_loop-RoundsKeep (length ts) c h) h
          (weaken (λ _ (j, l). (j, l, l)) (s ts i))
