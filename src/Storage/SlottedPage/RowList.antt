-- ===== src/Storage/SlottedPage/RowList.antt =====
-- The rows of a page in the order of their slots, as `compact` of src/storage/slotted_page.cpp saves
-- them.
use lettydb.Common.{
  ℕ, zero, suc, ◌+◌, ◌≤◌, ◌<◌, ◌≡◌, inl, inr, refl, List, [], ◌∷◌, ◌++◌, arith, ltb, length,
  Bool-cases, none, some,
}
use lettydb.Storage.Bytes.{Buffer, slice, length-slice}
use lettydb.Storage.SlottedPage.{num_slots, slot_offset, slot_length, live_tuples, get_tuple}
use lettydb.Storage.SlottedPage.Layout.{row_bytes}

pub live_tuples_agree :
    (b c : Buffer) (n i : ℕ)
    → ((j : ℕ)
        → i ≤ j
        → j < i + n
        → (slot_length c j ≡ slot_length b j)
          × (0 < slot_length b j
              → slice c (slot_offset c j) (slot_length c j)
                ≡ slice b (slot_offset b j) (slot_length b j)))
    → live_tuples c n i ≡ live_tuples b n i
unfolding live_tuples
live_tuples_agree b c zero i h = refl
live_tuples_agree b c (suc n) i h =
    let rest =
      live_tuples_agree b c n (suc i) (λ j p q. h j (omega (arith, p)) (omega (arith, q))) in
    let here = h i (omega arith) (omega arith) in ground (arith, rest, here)

pub live_tuples_snoc :
    (b : Buffer) (n i k : ℕ)
    → k ≡ i + n
    → 0 < slot_length b k
    → live_tuples b (suc n) i
      ≡ live_tuples b n i ++ slice b (slot_offset b k) (slot_length b k) ∷ []
unfolding live_tuples
live_tuples_snoc b zero i k e h = ground arith
live_tuples_snoc b (suc n) i k e h = ground (arith, live_tuples_snoc b n (suc i) k)

-- The rows of a page.
abbrev pub rows_of : Buffer → List (List ℕ)
rows_of b = live_tuples b (num_slots b) 0

-- The rows that `get_tuple` finds in `n` slots from `i` on.
abbrev pub found_rows : Buffer → ℕ → ℕ → List (List ℕ)
found_rows b zero i = []
found_rows b (suc n) i =
    let rest = found_rows b n (suc i) in
    elim (get_tuple i b) [ none ↦ rest | some row ↦ row ∷ rest ]

abbrev pub page_rows : Buffer → List (List ℕ)
page_rows b = found_rows b (num_slots b) 0

pub live_tuples-found_rows :
    (b : Buffer) (n i : ℕ) → i + n ≤ num_slots b → live_tuples b n i ≡ found_rows b n i
unfolding live_tuples get_tuple
live_tuples-found_rows b zero i h = refl
live_tuples-found_rows b (suc n) i h =
    ground (arith, h, live_tuples-found_rows b n (suc i) (omega (arith, h)))

unfoldable pub total_length : List (List ℕ) → ℕ
total_length [] = 0
total_length (row ∷ rows) = length row + total_length rows

pub total_length-live_tuples :
    (b : Buffer) (n i : ℕ) → total_length (live_tuples b n i) ≡ row_bytes b n i
unfolding total_length live_tuples row_bytes
total_length-live_tuples b zero i = refl
total_length-live_tuples b (suc n) i = ground (
  arith,
  total_length-live_tuples b n (suc i),
  length-slice b (slot_offset b i) (slot_length b i),
)

pub length-live_tuples : (b : Buffer) (n i : ℕ) → length (live_tuples b n i) ≤ n
unfolding live_tuples
length-live_tuples b zero i = omega arith
length-live_tuples b (suc n) i = ground (arith, length-live_tuples b n (suc i))

unfoldable pub NonemptyRows : List (List ℕ) → Type 0
NonemptyRows [] = Unit
NonemptyRows (row ∷ rows) = (0 < length row) × NonemptyRows rows

pub live_tuples-NonemptyRows : (b : Buffer) (n i : ℕ) → NonemptyRows (live_tuples b n i)
unfolding live_tuples NonemptyRows
live_tuples-NonemptyRows b zero i = tt
live_tuples-NonemptyRows b (suc n) i = elim (Bool-cases (ltb 0 (slot_length b i))) [
  | inl h ↦ rw (h) (
    ground (arith, h, length-slice b (slot_offset b i) (slot_length b i)),
    live_tuples-NonemptyRows b n (suc i),
  )
  | inr h ↦ rw (h) (live_tuples-NonemptyRows b n (suc i))
]
