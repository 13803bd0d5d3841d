-- ===== src/Storage/Bitmap.antt =====
-- src/storage/storage_def.h: the class Bitmap over an array of bytes. A byte is a number; its bits
-- are read and written from the lowest on.
use lettydb.Common.{
  ℕ, zero, suc, ◌+◌, ◌*◌, ◌/◌, ◌%◌, ◌<◌, ◌≡◌, refl, Bool, true, false, arith, ◌==◌, leb,
  if◌then◌else◌, Bool-cases, inl, inr,
}

-- `(byte & (1 << k)) != 0`.
unfoldable pub test_bit : ℕ → ℕ → Bool
test_bit zero byte = byte % 2 == 1
test_bit (suc k) byte = test_bit k (byte / 2)

-- `byte | (1 << k)`.
unfoldable pub or_bit : ℕ → ℕ → ℕ
or_bit zero byte = byte / 2 * 2 + 1
or_bit (suc k) byte = or_bit k (byte / 2) * 2 + byte % 2

-- `byte & ~(1 << k)`.
unfoldable pub and_not_bit : ℕ → ℕ → ℕ
and_not_bit zero byte = byte / 2 * 2
and_not_bit (suc k) byte = and_not_bit k (byte / 2) * 2 + byte % 2

pub record Bitmap : Type 0 where
  pub bytes : ℕ → ℕ
  pub size : ℕ

abbrev set_byte : ℕ → ℕ → (ℕ → ℕ) → ℕ → ℕ
set_byte o x bytes i = if i == o then x else bytes i

unfoldable pub is_set : Bitmap → ℕ → Bool
is_set m bit_index =
    if leb m.size bit_index then false else test_bit (bit_index % 8) (m.bytes (bit_index / 8))

unfoldable pub set : ℕ → Bitmap → Bitmap
set bit_index m = if leb m.size bit_index then m else record m {
  bytes = set_byte (bit_index / 8) (or_bit (bit_index % 8) (m.bytes (bit_index / 8))) m.bytes;
}

unfoldable pub clear : ℕ → Bitmap → Bitmap
clear bit_index m = if leb m.size bit_index then m else record m {
  bytes = set_byte (bit_index / 8) (and_not_bit (bit_index % 8) (m.bytes (bit_index / 8))) m.bytes;
}

half : (x r : ℕ) → r < 2 → (x * 2 + r) / 2 ≡ x
half x r h = omega arith

pub test_bit-or_bit :
    (j k byte : ℕ) → test_bit j (or_bit k byte) ≡ (if j == k then true else test_bit j byte)
unfolding test_bit or_bit
test_bit-or_bit zero zero byte = ground arith
test_bit-or_bit zero (suc k) byte = ground arith
test_bit-or_bit (suc j) zero byte = rw ((half (byte / 2) 1 (omega arith))) (ground arith)
test_bit-or_bit (suc j) (suc k) byte =
    rw ((half (or_bit k (byte / 2)) (byte % 2) (omega arith)))
      (ground (arith, test_bit-or_bit j k (byte / 2)))

test_bit-and_not_bit :
    (j k byte : ℕ) → test_bit j (and_not_bit k byte) ≡ (if j == k then false else test_bit j byte)
unfolding test_bit and_not_bit
test_bit-and_not_bit zero zero byte = ground arith
test_bit-and_not_bit zero (suc k) byte = ground arith
test_bit-and_not_bit (suc j) zero byte =
    let e : byte / 2 * 2 / 2 ≡ byte / 2 = omega arith in rw (e) (ground arith)
test_bit-and_not_bit (suc j) (suc k) byte =
    rw ((half (and_not_bit k (byte / 2)) (byte % 2) (omega arith)))
      (ground (arith, test_bit-and_not_bit j k (byte / 2)))

-- Setting and clearing a bit change that bit and no other.
pub is_set-set :
    (i j : ℕ) (m : Bitmap) → i < m.size → is_set (set i m) j ≡ (if i == j then true else is_set m j)
unfolding is_set set
is_set-set i j m h = ground (arith, test_bit-or_bit (j % 8) (i % 8) (m.bytes (i / 8)))

pub is_set-clear :
    (i j : ℕ) (m : Bitmap)
    → i < m.size
    → is_set (clear i m) j ≡ (if i == j then false else is_set m j)
unfolding is_set clear
is_set-clear i j m h = ground (arith, test_bit-and_not_bit (j % 8) (i % 8) (m.bytes (i / 8)))

-- The size stays.
pub set_size : (i : ℕ) (m : Bitmap) → record { bytes = (set i m).bytes; size = m.size } ≡ set i m
unfolding set
set_size i m = elim (Bool-cases (leb m.size i)) [ inl h ↦ rw (h) refl | inr h ↦ rw (h) refl ]

pub clear_size :
    (i : ℕ) (m : Bitmap) → record { bytes = (clear i m).bytes; size = m.size } ≡ clear i m
unfolding clear
clear_size i m = elim (Bool-cases (leb m.size i)) [ inl h ↦ rw (h) refl | inr h ↦ rw (h) refl ]
