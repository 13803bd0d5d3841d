-- ===== src/Storage/Tuple/Fields.antt =====
-- One value of a row, written and read back (src/storage/tuple.cpp).
use lettydb.Common.{
  ℕ, suc, ◌+◌, ◌-◌, ◌%◌, ◌^◌, ◌≤◌, ◌<◌, ◌≡◌, ◌⊎◌, inl, inr, refl, ◌∙◌, List, [], ◌∷◌, ◌++◌, Bool,
  true, false, some, arith, ◌==◌, if◌then◌else◌, length, pos, negsuc, not, ap,
}
use lettydb.Storage.Bytes.{Buffer, slice}
use lettydb.Storage.Tuple.{
  DataType, integer_type, double_type, boolean_type, varchar_type, date_type, timestamp_type, Value,
  null_value, integer, double, text, boolean, to_bytes, from_bytes, int_word, word_int, take_bytes,
  payload, advance, size_of, until_zero, read_value,
}

-- No zero byte.
abbrev pub NoZero : List ℕ → Type 0
NoZero [] = Unit {0}
NoZero (x ∷ xs) = (0 < x) × NoZero xs

-- A value that a column takes: of its type, a number in range, a string of at most 65535 bytes, a
-- date of the width of the column without zero bytes.
pub data Typed : DataType → ℕ → Value → Type 0 where
  null_integer : Typed integer_type 4 null_value
  positive : (n : ℕ) → n < 2 ^ 31 → Typed integer_type 4 (integer (pos n))
  negative : (n : ℕ) → n < 2 ^ 31 → Typed integer_type 4 (integer (negsuc n))
  null_double : Typed double_type 8 null_value
  of_double : (w : ℕ) → w < 2 ^ 64 → Typed double_type 8 (double w)
  null_boolean : Typed boolean_type 1 null_value
  of_boolean : (x : Bool) → Typed boolean_type 1 (boolean x)
  null_varchar : (width : ℕ) → Typed varchar_type width null_value
  of_varchar : (width : ℕ) (xs : List ℕ) → length xs < 65536 → Typed varchar_type width (text xs)
  null_date : (width : ℕ) → 0 < width → Typed date_type width null_value
  of_date : (xs : List ℕ) → 0 < length xs → NoZero xs → Typed date_type (length xs) (text xs)
  null_timestamp : (width : ℕ) → 0 < width → Typed timestamp_type width null_value
  of_timestamp :
      (xs : List ℕ) → 0 < length xs → NoZero xs → Typed timestamp_type (length xs) (text xs)

-- What is written for a value, and how it reads.
pub record Field (t : DataType) (width : ℕ) (v : Value) : Type 0 where
  pub bytes : List ℕ
  pub size : ℕ
  pub written : payload t width v ≡ some bytes
  pub sized : size_of t width v ≡ some size
  pub moved : advance t width bytes ≡ size
  pub nonempty : 0 < size
  pub within : length bytes ≤ size
  -- Wherever the bytes stand, they read as the value, unless it is null.
  pub reads :
      (b : Buffer) (o : ℕ)
      → slice b o (length bytes) ≡ bytes
      → ((read_value t width b o).1 ≡ size) × ((v ≡ null_value) ⊎ ((read_value t width b o).0 ≡ v))

until_zero_lem : (xs : List ℕ) → NoZero xs → until_zero xs ≡ xs
until_zero_lem [] h = refl
until_zero_lem (x ∷ xs) h = ground (arith, until_zero_lem xs h.1, h.0)

take_bytes_all : (xs : List ℕ) → take_bytes (length xs) xs ≡ xs
take_bytes_all [] = refl
take_bytes_all (x ∷ xs) = ap (λ ys. x ∷ ys) (take_bytes_all xs)

from_bytes-to_bytes_2 : (w : ℕ) → w < 65536 → from_bytes (to_bytes 2 w) ≡ w
unfolding from_bytes to_bytes
from_bytes-to_bytes_2 w h = omega arith

from_bytes-to_bytes_4 : (w : ℕ) → w < 2 ^ 32 → from_bytes (to_bytes 4 w) ≡ w
unfolding from_bytes to_bytes
from_bytes-to_bytes_4 w h = omega arith

from_bytes-to_bytes_8 : (w : ℕ) → w < 2 ^ 64 → from_bytes (to_bytes 8 w) ≡ w
unfolding from_bytes to_bytes
from_bytes-to_bytes_8 w h = omega arith

word_int-int_word_pos :
    (n : ℕ) → n < 2 ^ 31 → word_int (from_bytes (to_bytes 4 (int_word (pos n)))) ≡ pos n
unfolding word_int int_word
word_int-int_word_pos n h =
    let small : n % 2 ^ 32 ≡ n = omega arith in
    rw (small, from_bytes-to_bytes_4 n (omega arith)) (ground arith)

word_int-int_word_negsuc :
    (n : ℕ) → n < 2 ^ 31 → word_int (from_bytes (to_bytes 4 (int_word (negsuc n)))) ≡ negsuc n
unfolding word_int int_word
word_int-int_word_negsuc n h =
    let small : n % 2 ^ 32 ≡ n = omega arith in
    let back : 2 ^ 32 - 1 - (2 ^ 32 - 1 - n) ≡ n = omega arith in
    rw (small, from_bytes-to_bytes_4 (2 ^ 32 - 1 - n) (omega arith)) (ground (arith, back))

boolean_back : (x : Bool) → not ((if x then 1 else 0) == 0) ≡ x
boolean_back true = refl
boolean_back false = refl

first_byte : (b : Buffer) (o x : ℕ) → slice b o 1 ≡ x ∷ [] → b o ≡ x
unfolding slice
first_byte b o x e = ground (arith, e)

-- The length of a string, and the string.
prefix_parts :
    (b : Buffer) (o n x y : ℕ) (xs : List ℕ)
    → slice b o (suc (suc n)) ≡ x ∷ y ∷ xs
    → (slice b o 2 ≡ x ∷ y ∷ []) × (slice b (suc (suc o)) n ≡ xs)
unfolding slice
prefix_parts b o n x y xs e = ground (arith, e)

-- A value of a fixed width.
fixed_field :
    (t : DataType) (width : ℕ) (v : Value) (bytes : List ℕ)
    → payload t width v ≡ some bytes
    → size_of t width v ≡ some width
    → advance t width bytes ≡ width
    → 0 < width
    → length bytes ≤ width
    → ((b : Buffer) (o : ℕ)
        → slice b o (length bytes) ≡ bytes
        → ((read_value t width b o).1 ≡ width)
          × ((v ≡ null_value) ⊎ ((read_value t width b o).0 ≡ v)))
    → Field t width v
fixed_field t width v bytes w s m p l r = record {
  bytes = bytes;
  size = width;
  written = w;
  sized = s;
  moved = m;
  nonempty = p;
  within = l;
  reads = r;
}

pub Typed-Field : (t : DataType) (width : ℕ) (v : Value) → Typed t width v → Field t width v
unfolding payload size_of advance read_value to_bytes
Typed-Field _ _ _ null_integer =
    fixed_field _ _ _ (to_bytes 4 0) refl refl refl (omega arith) (omega arith)
      (λ b o e. (refl, inl refl))
Typed-Field _ _ _ (positive n h) =
    fixed_field _ _ _ (to_bytes 4 (int_word (pos n))) refl refl refl (omega arith) (omega arith)
      (λ b o e. (
        refl,
        inr (
            ap (λ xs. integer (word_int (from_bytes xs))) e
            ∙ ap integer (word_int-int_word_pos n h)),
      ))
Typed-Field _ _ _ (negative n h) =
    fixed_field _ _ _ (to_bytes 4 (int_word (negsuc n))) refl refl refl (omega arith) (omega arith)
      (λ b o e. (
        refl,
        inr (
            ap (λ xs. integer (word_int (from_bytes xs))) e
            ∙ ap integer (word_int-int_word_negsuc n h)),
      ))
Typed-Field _ _ _ null_double =
    fixed_field _ _ _ (to_bytes 8 0) refl refl refl (omega arith) (omega arith)
      (λ b o e. (refl, inl refl))
Typed-Field _ _ _ (of_double w h) =
    fixed_field _ _ _ (to_bytes 8 w) refl refl refl (omega arith) (omega arith) (λ b o e.
      (refl, inr (ap (λ xs. double (from_bytes xs)) e ∙ ap double (from_bytes-to_bytes_8 w h))))
Typed-Field _ _ _ null_boolean =
    fixed_field _ _ _ (0 ∷ []) refl refl refl (omega arith) (omega arith)
      (λ b o e. (refl, inl refl))
Typed-Field _ _ _ (of_boolean x) =
    fixed_field _ _ _ ((if x then 1 else 0) ∷ []) refl refl refl (omega arith) (omega arith)
      (λ b o e.
        (refl, inr (ap boolean (ap (λ n. not (n == 0)) (first_byte b o _ e) ∙ boolean_back x))))
Typed-Field _ _ _ (null_varchar width) = record {
  bytes = to_bytes 2 0;
  size = 2;
  written = refl;
  sized = refl;
  moved = refl;
  nonempty = omega arith;
  within = omega arith;
  reads = λ b o e. (
    ap (λ xs. 2 + from_bytes xs) e ∙ ap (λ n. 2 + n) (from_bytes-to_bytes_2 0 (omega arith)),
    inl refl,
  );
}
Typed-Field _ _ _ (of_varchar width xs h) =
    let small : length xs % 65536 ≡ length xs = omega arith in
    record {
      bytes = to_bytes 2 (length xs % 65536) ++ xs;
      size = 2 + length xs;
      written = refl;
      sized = refl;
      moved = omega arith;
      nonempty = omega arith;
      within = omega arith;
      reads = λ b o e.
          let parts = prefix_parts b o (length xs) _ _ xs e in
          let size : from_bytes (slice b o 2) ≡ length xs =
            ap from_bytes parts.0
            ∙ from_bytes-to_bytes_2 (length xs % 65536) (omega arith)
            ∙ small in
          (ap (λ n. 2 + n) size, inr (rw (size) (ap text parts.1)));
    }
Typed-Field _ _ _ (null_date width h) =
    fixed_field _ _ _ [] refl refl refl h (omega arith) (λ b o e. (refl, inl refl))
Typed-Field _ _ _ (of_date xs h z) =
    fixed_field _ _ _ xs (ap some (take_bytes_all xs)) refl refl h (omega arith)
      (λ b o e. (refl, inr (ap (λ ys. text (until_zero ys)) e ∙ ap text (until_zero_lem xs z))))
Typed-Field _ _ _ (null_timestamp width h) =
    fixed_field _ _ _ [] refl refl refl h (omega arith) (λ b o e. (refl, inl refl))
Typed-Field _ _ _ (of_timestamp xs h z) =
    fixed_field _ _ _ xs (ap some (take_bytes_all xs)) refl refl h (omega arith)
      (λ b o e. (refl, inr (ap (λ ys. text (until_zero ys)) e ∙ ap text (until_zero_lem xs z))))
