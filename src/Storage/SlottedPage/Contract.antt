-- ===== src/Storage/SlottedPage/Contract.antt =====
-- What `insert_tuple` of src/storage/slotted_page.cpp promises to a caller that reads with
-- `get_tuple`.
use lettydb.Common.{ℕ, ◌+◌, ◌≤◌, ◌<◌, ◌≡◌, ◌≢◌, List, Option, none, some, arith, length}
use lettydb.Storage.Bytes.{Buffer}
use lettydb.Storage.SlottedPage.{
  num_slots, free_space_pointer, get_free_space, find_deleted, insert_tuple, get_tuple,
}
use lettydb.Storage.SlottedPage.Layout.{IsValid}
use lettydb.Storage.SlottedPage.Rows.{
  slot_needed, Outcome, insert_tuple-Outcome, get_tuple_dead, Inserted-IsValid, get_tuple-Inserted,
  get_tuple-Inserted_ne, free_space,
}

-- The row has the slot number `t`.
pub record Stored (needed t : ℕ) (row : List ℕ) (b c : Buffer) : Type 0 where
  pub fits : needed ≤ get_free_space b
  pub was_free : get_tuple t b ≡ none
  pub new : 0 < length row → get_tuple t c ≡ some row
  pub others : (j : ℕ) → j ≢ t → get_tuple j c ≡ get_tuple j b
  pub space : get_free_space c + needed ≡ get_free_space b
  -- No byte of a row, or behind the page, is written.
  pub outside : (i : ℕ) → free_space_pointer b ≤ i → c i ≡ b i
  pub valid : IsValid c

unfoldable pub Insertion : ℕ → List ℕ → Buffer → Option ℕ × Buffer → Type 0
Insertion needed row b (none, c) = (get_free_space b < needed) × (c ≡ b)
Insertion needed row b (some t, c) = Stored needed t row b c

-- The bytes that a call takes.
abbrev pub needed_space : List ℕ → Buffer → ℕ
needed_space row b = length row + slot_needed (find_deleted b (num_slots b) 0)

module _ (row : List ℕ) (b : Buffer) (v : IsValid b) where
  Outcome-Insertion :
      (needed : ℕ) (r : Option ℕ × Buffer) → Outcome needed row b r → Insertion needed row b r
  unfolding Outcome Insertion
  Outcome-Insertion needed (none, c) o = o
  Outcome-Insertion needed (some t, c) o =
      let ins = o.1 in
      let w = Inserted-IsValid t row b c v ins in
      record {
        fits = o.0;
        was_free = get_tuple_dead b t (ground (arith, ins.slots));
        new = get_tuple-Inserted t row b c v ins;
        others = get_tuple-Inserted_ne t row b c v ins;
        space = omega (
          arith,
          free_space row b v,
          free_space row c w,
          ins.lowered,
          ins.room,
          o.2,
          v.directory,
          w.directory,
        );
        outside = ins.same_rows;
        valid = w;
      }

  -- On a well-formed page, `insert_tuple` fails exactly when the free space is less than the row
  -- and, if no deleted slot is left, one more slot, and then leaves the page as it is. Else it
  -- returns a slot number that had no row and has the row now (if the row is not empty), every
  -- other slot number reads as before, the free space falls by what was needed, no byte of an older
  -- row or behind the page is written, and the page stays well formed.
  pub insert_tuple-Insertion : Insertion (needed_space row b) row b (insert_tuple row b)
  insert_tuple-Insertion =
      let x = find_deleted b (num_slots b) 0 in
      Outcome-Insertion (needed_space row b) (insert_tuple row b) (insert_tuple-Outcome row b v)
