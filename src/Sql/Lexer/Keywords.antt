-- ===== src/Sql/Lexer/Keywords.antt =====
-- The reserved words of src/sql/lexer.cpp, as they are written, and what the lookup of the lexer
-- finds for them.
use Prim.Native.Char.{code}
use Prim.Native.String.{String}
use lettydb.Common.{
  ℕ, ◌+◌, ◌≤◌, ◌-◌, ◌≡◌, ◌⊎◌, inl, inr, refl, sym, subst, List, [], ◌∷◌, Bool, true, ◌&&◌, some,
  arith, leb, Bool-cases,
}
use lettydb.Sql.Token.{TokenType, keyword_map}
use lettydb.Sql.Lexer.{upper_text, same_text, find_keyword}

-- The codes of a text.
abbrev pub ascii : String → List ℕ
ascii String.[] = []
ascii (String.◌∷◌ letter text) = code letter ∷ ascii text

abbrev pub reserved : List (String × TokenType)
reserved =
    ("SELECT", TokenType.select_token)
    ∷ ("FROM", TokenType.from_token)
    ∷ ("WHERE", TokenType.where_token)
    ∷ ("INSERT", TokenType.insert_token)
    ∷ ("INTO", TokenType.into_token)
    ∷ ("VALUES", TokenType.values_token)
    ∷ ("UPDATE", TokenType.update_token)
    ∷ ("SET", TokenType.set_token)
    ∷ ("DELETE", TokenType.delete_token)
    ∷ ("CREATE", TokenType.create_token)
    ∷ ("TABLE", TokenType.table_token)
    ∷ ("INDEX", TokenType.index_token)
    ∷ ("DROP", TokenType.drop_token)
    ∷ ("IF", TokenType.if_token)
    ∷ ("EXISTS", TokenType.exists_token)
    ∷ ("PRIMARY", TokenType.primary_token)
    ∷ ("KEY", TokenType.key_token)
    ∷ ("INT", TokenType.int_token)
    ∷ ("FLOAT", TokenType.float_token)
    ∷ ("VARCHAR", TokenType.varchar_token)
    ∷ ("BOOL", TokenType.bool_token)
    ∷ ("DATE", TokenType.date_token)
    ∷ ("TIMESTAMP", TokenType.timestamp_token)
    ∷ ("JOIN", TokenType.join_token)
    ∷ ("ON", TokenType.on_token)
    ∷ ("GROUP", TokenType.group_token)
    ∷ ("BY", TokenType.by_token)
    ∷ ("HAVING", TokenType.having_token)
    ∷ ("ORDER", TokenType.order_token)
    ∷ ("ASC", TokenType.asc_token)
    ∷ ("DESC", TokenType.desc_token)
    ∷ ("AND", TokenType.and_token)
    ∷ ("OR", TokenType.or_token)
    ∷ ("NOT", TokenType.not_token)
    ∷ ("IS", TokenType.is_token)
    ∷ ("NULL", TokenType.null_literal)
    ∷ ("TRUE", TokenType.true_token)
    ∷ ("FALSE", TokenType.false_token)
    ∷ ("AS", TokenType.as_token)
    ∷ ("LIMIT", TokenType.limit_token)
    ∷ ("OFFSET", TokenType.offset_token)
    ∷ ("COMPACT", TokenType.compact_token)
    ∷ []

abbrev pub AmongWords : List (String × TokenType) → List ℕ → TokenType → Type 0
AmongWords [] k t = ⊥
AmongWords ((word, u) ∷ entries) k t = ((ascii word ≡ k) × (u ≡ t)) ⊎ AmongWords entries k t

abbrev pub IsReserved : List ℕ → TokenType → Type 0
IsReserved k t = AmongWords reserved k t

abbrev pub IsCapital : ℕ → Type 0
IsCapital c = (65 ≤ c) × (c ≤ 90)

-- A word in capitals, and the same letters in any case.
pub data AnyCase : List ℕ → List ℕ → Type 0 where
  done : AnyCase [] []
  capital : {c : ℕ} {ks ws : List ℕ} → IsCapital c → AnyCase ks ws → AnyCase (c ∷ ks) (c ∷ ws)
  small : {c : ℕ} {ks ws : List ℕ} → IsCapital c → AnyCase ks ws → AnyCase (c ∷ ks) ((c + 32) ∷ ws)

same_text_refl : (x : List ℕ) → same_text x x ≡ true
same_text_refl [] = refl
same_text_refl (x ∷ xs) = ground (arith, same_text_refl xs)

pub same_text-eq : (x y : List ℕ) → same_text x y ≡ true → x ≡ y
same_text-eq [] [] h = refl
same_text-eq [] (y ∷ ys) h = absurd (ground arith)
same_text-eq (x ∷ xs) [] h = absurd (ground arith)
same_text-eq (x ∷ xs) (y ∷ ys) h = ground (arith, same_text-eq xs ys)

pub same_text-true : (x y : List ℕ) → x ≡ y → same_text x y ≡ true
same_text-true x y e = rw (e) (same_text_refl y)

-- The lookup finds each reserved word, and nothing else.
FoundAll : List (String × TokenType) → Type 0
FoundAll [] = Unit {0}
FoundAll ((word, t) ∷ entries) = (find_keyword keyword_map (ascii word) ≡ some t) × FoundAll entries

reserved-FoundAll : FoundAll reserved
unfolding FoundAll find_keyword keyword_map
reserved-FoundAll = (
  refl,
  (
    refl,
    (
      refl,
      (
        refl,
        (
          refl,
          (
            refl,
            (
              refl,
              (
                refl,
                (
                  refl,
                  (
                    refl,
                    (
                      refl,
                      (
                        refl,
                        (
                          refl,
                          (
                            refl,
                            (
                              refl,
                              (
                                refl,
                                (
                                  refl,
                                  (
                                    refl,
                                    (
                                      refl,
                                      (
                                        refl,
                                        (
                                          refl,
                                          (
                                            refl,
                                            (
                                              refl,
                                              (
                                                refl,
                                                (
                                                  refl,
                                                  (
                                                    refl,
                                                    (
                                                      refl,
                                                      (
                                                        refl,
                                                        (
                                                          refl,
                                                          (
                                                            refl,
                                                            (
                                                            refl,
                                                            (
                                                            refl,
                                                            (
                                                            refl,
                                                            (
                                                            refl,
                                                            (
                                                            refl,
                                                            (
                                                            refl,
                                                            (
                                                            refl,
                                                            (
                                                            refl,
                                                            (refl, (refl, (refl, (refl, tt)))),
                                                            ),
                                                            ),
                                                            ),
                                                            ),
                                                            ),
                                                            ),
                                                            ),
                                                            ),
                                                          ),
                                                        ),
                                                      ),
                                                    ),
                                                  ),
                                                ),
                                              ),
                                            ),
                                          ),
                                        ),
                                      ),
                                    ),
                                  ),
                                ),
                              ),
                            ),
                          ),
                        ),
                      ),
                    ),
                  ),
                ),
              ),
            ),
          ),
        ),
      ),
    ),
  ),
)

FoundAll-find_keyword :
    (entries : List (String × TokenType)) (k : List ℕ) (t : TokenType)
    → FoundAll entries
    → AmongWords entries k t
    → find_keyword keyword_map k ≡ some t
unfolding FoundAll
FoundAll-find_keyword [] k t all among = absurd among
FoundAll-find_keyword ((word, u) ∷ entries) k t all (inl (e, same)) = rw (← e, ← same) all.0
FoundAll-find_keyword ((word, u) ∷ entries) k t all (inr later) =
    FoundAll-find_keyword entries k t all.1 later

pub IsReserved-find_keyword :
    (k : List ℕ) (t : TokenType) → IsReserved k t → find_keyword keyword_map k ≡ some t
IsReserved-find_keyword k t r = FoundAll-find_keyword reserved k t reserved-FoundAll r

coded : List (String × TokenType) → List (List ℕ × TokenType)
coded [] = []
coded ((word, t) ∷ entries) = (ascii word, t) ∷ coded entries

keyword_map-coded : keyword_map ≡ coded reserved
unfolding keyword_map coded
keyword_map-coded = refl

find_keyword-AmongWords :
    (entries : List (String × TokenType)) (k : List ℕ) (t : TokenType)
    → find_keyword (coded entries) k ≡ some t
    → AmongWords entries k t
unfolding find_keyword coded
find_keyword-AmongWords [] k t e = absurd (ground arith)
find_keyword-AmongWords ((word, u) ∷ entries) k t e = elim (Bool-cases (same_text (ascii word) k)) [
  | inl h ↦ let found : some u ≡ some t = rw (h) at e in inl (same_text-eq (ascii word) k h, cc)
  | inr h ↦ inr (find_keyword-AmongWords entries k t (rw (h) at e))
]

pub find_keyword-IsReserved :
    (k : List ℕ) (t : TokenType) → find_keyword keyword_map k ≡ some t → IsReserved k t
find_keyword-IsReserved k t e = find_keyword-AmongWords reserved k t (rw (keyword_map-coded) at e)

pub AnyCase-upper_text : {k w : List ℕ} → AnyCase k w → upper_text w ≡ k
AnyCase-upper_text done = refl
AnyCase-upper_text (capital h a) = ground (arith, h, AnyCase-upper_text a)
AnyCase-upper_text (small h a) = ground (arith, h, AnyCase-upper_text a)

abbrev all_capitals : List ℕ → Bool
all_capitals [] = true
all_capitals (c ∷ cs) = leb 65 c && leb c 90 && all_capitals cs

abbrev words_capital : List (String × TokenType) → Bool
words_capital [] = true
words_capital ((word, t) ∷ entries) = all_capitals (ascii word) && words_capital entries

AmongWords-capitals :
    (entries : List (String × TokenType)) (k : List ℕ) (t : TokenType)
    → words_capital entries ≡ true
    → AmongWords entries k t
    → all_capitals k ≡ true
AmongWords-capitals [] k t h among = absurd among
AmongWords-capitals ((word, u) ∷ entries) k t h (inl (e, same)) = rw (← e) (ground (arith, h))
AmongWords-capitals ((word, u) ∷ entries) k t h (inr later) =
    AmongWords-capitals entries k t (ground (arith, h)) later

-- A word whose capitals are capitals is those letters in some case.
capitals-AnyCase : (w : List ℕ) → all_capitals (upper_text w) ≡ true → AnyCase (upper_text w) w
capitals-AnyCase [] h = done
capitals-AnyCase (c ∷ cs) h = elim (Bool-cases (leb 97 c && leb c 122)) [
  | inl l ↦
      let rest = capitals-AnyCase cs (ground (arith, h, l)) in
      let back : c ≡ c - 32 + 32 = ground (arith, l) in
      let one : AnyCase ((c - 32) ∷ upper_text cs) ((c - 32 + 32) ∷ cs) =
        small (ground (arith, l), ground (arith, l)) rest in
      rw (l) (subst (λ x. AnyCase ((c - 32) ∷ upper_text cs) (x ∷ cs)) (sym back) one)
  | inr u ↦
      let rest = capitals-AnyCase cs (ground (arith, h, u)) in
      rw (u) (capital (ground (arith, h, u), ground (arith, h, u)) rest)
]

pub IsReserved-AnyCase :
    (w : List ℕ) (t : TokenType) → IsReserved (upper_text w) t → AnyCase (upper_text w) w
IsReserved-AnyCase w t r = capitals-AnyCase w (AmongWords-capitals reserved (upper_text w) t refl r)
