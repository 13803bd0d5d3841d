-- ===== src/Storage/Bytes.antt =====
-- A page buffer, byte by byte: the memset, memcpy and uint16_t accesses of src/storage. The buffer
-- is a function of the offset and does not end, so a write beyond a page would show.
use lettydb.Common.{
  ℕ, zero, suc, ◌+◌, ◌-◌, ◌*◌, ◌/◌, ◌%◌, ◌≤◌, ◌<◌, ◌≡◌, ◌⊎◌, refl, List, [], ◌∷◌, arith, ◌==◌, ltb,
  if◌then◌else◌, length,
}

abbrev pub Buffer : Type 0
Buffer = ℕ → ℕ

abbrev pub set_byte : ℕ → ℕ → Buffer → Buffer
set_byte o x b i = if i == o then x else b i

-- A little-endian uint16_t at an offset.
unfoldable pub load_u16 : Buffer → ℕ → ℕ
load_u16 b o = b o + 256 * b (o + 1)

-- The value is cut to 16 bits.
unfoldable pub store_u16 : ℕ → ℕ → Buffer → Buffer
store_u16 o v b = set_byte (o + 1) (v / 256 % 256) (set_byte o (v % 256) b)

-- A difference of two uint16_t, cut to 16 bits.
abbrev pub sub_u16 : ℕ → ℕ → ℕ
sub_u16 a n = (a + 65536 - n % 65536) % 65536

-- `memset(b, 0, n)`.
unfoldable pub clear_bytes : ℕ → Buffer → Buffer
clear_bytes n b i = if ltb i n then 0 else b i

-- `memcpy(b + o, xs, length xs)`.
unfoldable pub copy_bytes : ℕ → List ℕ → Buffer → Buffer
copy_bytes o [] b = b
copy_bytes o (x ∷ xs) b = copy_bytes (suc o) xs (set_byte o x b)

-- The `n` bytes from an offset on.
unfoldable pub slice : Buffer → ℕ → ℕ → List ℕ
slice b o zero = []
slice b o (suc n) = b o ∷ slice b (suc o) n

pub load_u16-store_u16 : (o v : ℕ) (b : Buffer) → v < 65536 → load_u16 (store_u16 o v b) o ≡ v
unfolding load_u16 store_u16
load_u16-store_u16 o v b h = ground arith

pub load_u16-store_u16_ne :
    (o p v : ℕ) (b : Buffer)
    → (p + 1 < o) ⊎ (o + 1 < p)
    → load_u16 (store_u16 o v b) p ≡ load_u16 b p
unfolding load_u16 store_u16
load_u16-store_u16_ne o p v b h = ground arith

pub store_u16_ne : (o i v : ℕ) (b : Buffer) → (i < o) ⊎ (o + 1 < i) → store_u16 o v b i ≡ b i
unfolding store_u16
store_u16_ne o i v b h = ground arith

pub copy_bytes_ne :
    (o i : ℕ) (xs : List ℕ) (b : Buffer) → (i < o) ⊎ (o + length xs ≤ i) → copy_bytes o xs b i ≡ b i
unfolding copy_bytes
copy_bytes_ne o i [] b h = refl
copy_bytes_ne o i (x ∷ xs) b h = ground (arith, copy_bytes_ne (suc o) i xs (set_byte o x b))

pub slice-copy_bytes :
    (o : ℕ) (xs : List ℕ) (b : Buffer) → slice (copy_bytes o xs b) o (length xs) ≡ xs
unfolding slice copy_bytes
slice-copy_bytes o [] b = refl
slice-copy_bytes o (x ∷ xs) b = ground (
  arith,
  slice-copy_bytes (suc o) xs (set_byte o x b),
  copy_bytes_ne (suc o) o xs (set_byte o x b),
)

-- Two buffers that agree on a range have the same slice there.
pub slice_agree :
    (b c : Buffer) (o n : ℕ) → ((i : ℕ) → o ≤ i → i < o + n → b i ≡ c i) → slice b o n ≡ slice c o n
unfolding slice
slice_agree b c o zero h = refl
slice_agree b c o (suc n) h =
    ground (arith, h o, slice_agree b c (suc o) n (λ i p q. h i (omega arith) (omega arith)))

pub length-slice : (b : Buffer) (o n : ℕ) → length (slice b o n) ≡ n
unfolding slice
length-slice b o zero = refl
length-slice b o (suc n) = omega (arith, length-slice b (suc o) n)

pub load_u16_agree :
    (b c : Buffer) (o : ℕ) → b o ≡ c o → b (o + 1) ≡ c (o + 1) → load_u16 b o ≡ load_u16 c o
unfolding load_u16
load_u16_agree b c o h k = ground arith
