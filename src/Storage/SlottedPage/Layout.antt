-- ===== src/Storage/SlottedPage/Layout.antt =====
-- What keeps the regions of a slotted page apart (src/storage/slotted_page.h, "Invariants"), and
-- the writes of `insert_tuple` against them.
use lettydb.Common.{
  ℕ, zero, suc, ◌+◌, ◌-◌, ◌*◌, ◌≤◌, ◌<◌, ◌≡◌, ◌≢◌, ◌⊎◌, inl, inr, refl, ◌∙◌, List, Bool-cases,
  arith, ◌==◌, length,
}
use lettydb.Storage.Bytes.{
  Buffer, load_u16, store_u16, sub_u16, slice, load_u16-store_u16, store_u16_ne, copy_bytes_ne,
  slice-copy_bytes, load_u16_agree,
}
use lettydb.Storage.SlottedPage.{
  free_space_pointer_at, num_slots, free_space_pointer, slot_offset, slot_length, place_tuple,
}

-- The end of the slot directory.
abbrev pub directory_end : Buffer → ℕ
directory_end b = 16 + 4 * num_slots b

-- Slot `i` holds a row.
abbrev pub IsLive : Buffer → ℕ → Type 0
IsLive b i = (i < num_slots b) × (0 < slot_length b i)

-- The bytes of the rows of the slots from `i` on, among `n`.
unfoldable pub row_bytes : Buffer → ℕ → ℕ → ℕ
row_bytes b zero i = 0
row_bytes b (suc n) i = slot_length b i + row_bytes b n (suc i)

pub record IsValid (b : Buffer) : Type 0 where
  pub directory : directory_end b ≤ free_space_pointer b
  pub in_page : free_space_pointer b ≤ 4096
  pub row_low : (i : ℕ) → IsLive b i → free_space_pointer b ≤ slot_offset b i
  pub row_high : (i : ℕ) → IsLive b i → slot_offset b i + slot_length b i ≤ 4096
  pub used : row_bytes b (num_slots b) 0 + free_space_pointer b ≤ 4096
  -- No two rows share a byte.
  pub apart :
      (i j : ℕ)
      → IsLive b i
      → IsLive b j
      → i ≢ j
      → (slot_offset b i + slot_length b i ≤ slot_offset b j)
        ⊎ (slot_offset b j + slot_length b j ≤ slot_offset b i)

pub row_bytes_same :
    (b c : Buffer) (n i : ℕ)
    → ((j : ℕ) → i ≤ j → j < i + n → slot_length c j ≡ slot_length b j)
    → row_bytes c n i ≡ row_bytes b n i
unfolding row_bytes
row_bytes_same b c zero i h = refl
row_bytes_same b c (suc n) i h = omega (
  arith,
  h i (omega arith) (omega arith),
  row_bytes_same b c n (suc i) (λ j p q. h j (omega (arith, p)) (omega (arith, q))),
)

pub row_bytes_set :
    (b c : Buffer) (t n i : ℕ)
    → i ≤ t
    → t < i + n
    → ((j : ℕ) → j < i + n → j ≢ t → slot_length c j ≡ slot_length b j)
    → row_bytes c n i + slot_length b t ≡ row_bytes b n i + slot_length c t
unfolding row_bytes
row_bytes_set b c t zero i p q h = omega (arith, p, q)
row_bytes_set b c t (suc n) i p q h = elim (Bool-cases (i == t)) [
  | inl e ↦ ground (
    arith,
    e,
    row_bytes_same b c n (suc i) (λ j k l. h j (omega (arith, l)) (ground (arith, k, e))),
  )
  | inr e ↦ ground (
    arith,
    h i,
    row_bytes_set b c t n (suc i) (ground (arith, p, e)) (omega (arith, q))
        (λ j l. h j (omega (arith, l))),
  )
]

pub row_bytes_snoc :
    (b : Buffer) (n i : ℕ) → row_bytes b (suc n) i ≡ row_bytes b n i + slot_length b (i + n)
unfolding row_bytes
row_bytes_snoc b zero i = ground arith
row_bytes_snoc b (suc n) i = ground (arith, row_bytes_snoc b n (suc i))

-- Fewer and shorter rows.
pub row_bytes_le :
    (b c : Buffer) (m n i : ℕ)
    → m ≤ n
    → ((j : ℕ) → slot_length c j ≤ slot_length b j)
    → row_bytes c m i ≤ row_bytes b n i
unfolding row_bytes
row_bytes_le b c zero n i le h = omega arith
row_bytes_le b c (suc m) zero i le h = omega (arith, le)
row_bytes_le b c (suc m) (suc n) i le h =
    omega (arith, h i, row_bytes_le b c m n (suc i) (omega (arith, le)) h)

-- A row that fits is placed.
module _ (b : Buffer) (row : List ℕ) (v : IsValid b)
    (fits : length row + directory_end b ≤ free_space_pointer b) where
  new_offset : ℕ
  new_offset = free_space_pointer b - length row

  lowered : Buffer
  lowered = store_u16 free_space_pointer_at (sub_u16 (free_space_pointer b) (length row)) b

  free_space_pointer-lowered : free_space_pointer lowered ≡ new_offset
  unfolding lowered new_offset
  free_space_pointer-lowered =
      load_u16-store_u16 free_space_pointer_at (sub_u16 (free_space_pointer b) (length row)) b
        (omega (arith, v.in_page))
      ∙ omega (arith, v.in_page, fits)

  -- Only the pointer and the free region change.
  pub place_tuple_ne :
      (i : ℕ)
      → (i < 14) ⊎ ((16 ≤ i) × (i < directory_end b)) ⊎ (free_space_pointer b ≤ i)
      → place_tuple row b i ≡ b i
  unfolding place_tuple lowered new_offset
  place_tuple_ne i h = ground (
    arith,
    v.directory,
    fits,
    free_space_pointer-lowered,
    copy_bytes_ne (free_space_pointer lowered) i row lowered,
    store_u16_ne free_space_pointer_at i (sub_u16 (free_space_pointer b) (length row)) b,
  )

  pub free_space_pointer-place_tuple :
      free_space_pointer (place_tuple row b) ≡ free_space_pointer b - length row
  unfolding place_tuple lowered new_offset
  free_space_pointer-place_tuple =
      load_u16_agree (place_tuple row b) lowered 14 (same 14 (omega arith)) (same 15 (omega arith))
      ∙ free_space_pointer-lowered
    where
      same : (i : ℕ) → i < 16 → place_tuple row b i ≡ lowered i
      same i h =
          copy_bytes_ne (free_space_pointer lowered) i row lowered
            (inl (omega (arith, free_space_pointer-lowered, v.directory, fits)))

  pub slice-place_tuple :
      slice (place_tuple row b) (free_space_pointer b - length row) (length row) ≡ row
  unfolding place_tuple lowered new_offset
  slice-place_tuple =
      rw (← free_space_pointer-lowered) (slice-copy_bytes (free_space_pointer lowered) row lowered)

  -- The other fields of the header, and the directory, read as before.
  pub load_u16-place_tuple :
      (o : ℕ)
      → (o < 13) ⊎ ((16 ≤ o) × (o + 1 < directory_end b))
      → load_u16 (place_tuple row b) o ≡ load_u16 b o
  load_u16-place_tuple o h =
      load_u16_agree (place_tuple row b) b o (place_tuple_ne o (ground arith))
        (place_tuple_ne (o + 1) (ground arith))
