-- ===== src/Storage/Tuple.antt =====
-- src/storage/tuple.cpp: rows as bytes. A DOUBLE is its 64 bits, a string its bytes; an exception
-- (a wrong number of values, a value of another type, a buffer that is too small, data that is
-- too short) is `none`.
pub mod Fields
pub mod Nulls
pub mod Roundtrip
use lettydb.Common.{
  ℕ, zero, suc, ◌+◌, ◌-◌, ◌*◌, ◌/◌, ◌%◌, ◌^◌, ◌≤◌, ◌<◌, ◌≡◌, List, [], ◌∷◌, ◌++◌, Bool, true, false,
  Option, none, some, arith, ◌==◌, ltb, leb, if◌then◌else◌, length, ℤ, pos, negsuc, not,
}
use lettydb.Storage.Bitmap.{test_bit, or_bit}
use lettydb.Storage.Bytes.{Buffer, set_byte, copy_bytes, clear_bytes, slice}

pub data DataType : Type 0 where
  integer_type double_type boolean_type varchar_type date_type timestamp_type : DataType

-- What tuples need of a column.
pub record Column : Type 0 where
  pub data_type : DataType
  pub length : ℕ

-- `Value`, with std::monostate as `null_value`.
pub data Value : Type 0 where
  null_value : Value
  integer : ℤ → Value
  double : ℕ → Value
  text : List ℕ → Value
  boolean : Bool → Value

-- The `k` bytes of a number, the lowest first, and back.
unfoldable pub to_bytes : ℕ → ℕ → List ℕ
to_bytes zero v = []
to_bytes (suc k) v = v % 256 ∷ to_bytes k (v / 256)

unfoldable pub from_bytes : List ℕ → ℕ
from_bytes [] = 0
from_bytes (x ∷ xs) = x + 256 * from_bytes xs

-- An int32_t in two's complement.
unfoldable pub int_word : ℤ → ℕ
int_word (pos n) = n % 2 ^ 32
int_word (negsuc n) = 2 ^ 32 - 1 - n % 2 ^ 32

unfoldable pub word_int : ℕ → ℤ
word_int w = if ltb w (2 ^ 31) then pos w else negsuc (2 ^ 32 - 1 - w)

unfoldable pub null_bitmap_size : ℕ → ℕ
null_bitmap_size column_count = (column_count + 7) / 8

unfoldable pub is_null_bit_set : Buffer → ℕ → Bool
is_null_bit_set bitmap i = test_bit (i % 8) (bitmap (i / 8))

unfoldable pub set_null_bit : ℕ → Buffer → Buffer
set_null_bit i bitmap = set_byte (i / 8) (or_bit (i % 8) (bitmap (i / 8))) bitmap

-- The first `n` bytes.
abbrev pub take_bytes : ℕ → List ℕ → List ℕ
take_bytes zero xs = []
take_bytes (suc n) [] = []
take_bytes (suc n) (x ∷ xs) = x ∷ take_bytes n xs

-- The bytes that the switch of `serialize` copies for a value.
unfoldable pub payload : DataType → ℕ → Value → Option (List ℕ)
payload DataType.integer_type width null_value = some (to_bytes 4 0)
payload DataType.integer_type width (integer z) = some (to_bytes 4 (int_word z))
payload DataType.double_type width null_value = some (to_bytes 8 0)
payload DataType.double_type width (double w) = some (to_bytes 8 w)
payload DataType.boolean_type width null_value = some (0 ∷ [])
payload DataType.boolean_type width (boolean x) = some ((if x then 1 else 0) ∷ [])
payload DataType.varchar_type width null_value = some (to_bytes 2 0)
payload DataType.varchar_type width (text xs) = some (to_bytes 2 (length xs % 65536) ++ xs)
payload DataType.date_type width null_value = some []
payload DataType.date_type width (text xs) = some (take_bytes width xs)
payload DataType.timestamp_type width null_value = some []
payload DataType.timestamp_type width (text xs) = some (take_bytes width xs)
payload t width v = none

-- How far the offset moves.
unfoldable pub advance : DataType → ℕ → List ℕ → ℕ
advance DataType.date_type width bytes = width
advance DataType.timestamp_type width bytes = width
advance t width bytes = length bytes

-- What a value adds to `total_size`.
unfoldable pub size_of : DataType → ℕ → Value → Option ℕ
size_of DataType.varchar_type width null_value = some 2
size_of DataType.varchar_type width (text xs) = some (2 + length xs)
size_of DataType.varchar_type width v = none
size_of t width v = some width

unfoldable pub total_size : List Column → List Value → ℕ → Option ℕ
total_size (c ∷ cs) (v ∷ vs) total = elim (size_of c.data_type c.length v) [
  | none ↦ none
  | some n ↦ total_size cs vs ((total + n) % 2 ^ 32)
]
total_size cs vs total = some total

-- The loop that sets the null bits, from value `i` on.
unfoldable pub mark_nulls : List Value → ℕ → Buffer → Buffer
mark_nulls [] i b = b
mark_nulls (null_value ∷ vs) i b = mark_nulls vs (suc i) (set_null_bit i b)
mark_nulls (v ∷ vs) i b = mark_nulls vs (suc i) b

unfoldable pub write_fields : List Column → List Value → ℕ → Buffer → Option Buffer
write_fields (c ∷ cs) (v ∷ vs) offset b = elim (payload c.data_type c.length v) [
  | none ↦ none
  | some bytes ↦
      write_fields cs vs ((offset + advance c.data_type c.length bytes) % 2 ^ 32)
        (copy_bytes offset bytes b)
]
write_fields cs vs offset b = some b

-- The part of `serialize` after the size is known.
unfoldable pub serialize_sized :
    Option ℕ → List Column → List Value → Buffer → ℕ → Option (ℕ × Buffer)
serialize_sized none columns values buf buf_size = none
serialize_sized (some total) columns values buf buf_size =
    if ltb buf_size total
    then none
    else (let start = null_bitmap_size (length columns) in
        elim (write_fields columns values start (mark_nulls values 0 (clear_bytes start buf))) [
          | none ↦ none
          | some b ↦ some (total, b)
        ])

unfoldable pub serialize : List Column → List Value → Buffer → ℕ → Option (ℕ × Buffer)
serialize columns values buf buf_size =
    if not (length values == length columns)
    then none
    else serialize_sized (total_size columns values (null_bitmap_size (length columns))) columns
        values buf buf_size

-- A string up to its first zero byte.
abbrev pub until_zero : List ℕ → List ℕ
until_zero [] = []
until_zero (x ∷ xs) = if x == 0 then [] else x ∷ until_zero xs

-- The switch of `deserialize`: the value, and how far the offset moves.
unfoldable pub read_value : DataType → ℕ → Buffer → ℕ → Value × ℕ
read_value DataType.integer_type width b o = (integer (word_int (from_bytes (slice b o 4))), 4)
read_value DataType.double_type width b o = (double (from_bytes (slice b o 8)), 8)
read_value DataType.boolean_type width b o = (boolean (not (b o == 0)), 1)
read_value DataType.varchar_type width b o =
    let size = from_bytes (slice b o 2) in (text (slice b (suc (suc o)) size), 2 + size)
read_value DataType.date_type width b o = (text (until_zero (slice b o width)), width)
read_value DataType.timestamp_type width b o = (text (until_zero (slice b o width)), width)

-- The loop of `deserialize` from column `i` on.
unfoldable pub read_fields : List Column → ℕ → ℕ → ℕ → Buffer → Option (List Value)
read_fields [] i offset size b = some []
read_fields (c ∷ cs) i offset size b =
    let (v, moved) = read_value c.data_type c.length b offset in
    let rest = read_fields cs (suc i) ((offset + moved) % 2 ^ 32) size b in
    if leb size offset then none else elim rest [
      | none ↦ none
      | some vs ↦ some ((if is_null_bit_set b i then null_value else v) ∷ vs)
    ]

unfoldable pub deserialize : List Column → Buffer → ℕ → Option (List Value)
deserialize columns b size =
    let start = null_bitmap_size (length columns) in
    if ltb size start then none else read_fields columns 0 start size b
